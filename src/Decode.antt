-- ===== src/Decode.antt =====
-- src/rv64core/inst_decode.rs: an instruction word is matched against the masks of the enabled
-- instructions, with a cache of earlier answers. The cache is that of the crate hashlink, so it is
-- the parameter `LruCache` here. `none` at the outside is a panic: a counter that overflows.
pub mod Pattern
pub mod Table
pub mod Laws
mod Examples
use riscv64_emu_rust.Base.{
  Bool, true, false, List, [], ◌∷◌, ◌++◌, Option, none, some, ◌>>=◌, assert, if◌then◌else◌, ℕ, ◌+◌,
  ◌^◌, ◌==◌, ltb, bit_and,
}
use riscv64_emu_rust.Decode.Pattern.{Instruction, sort_by_inst_cmp}
use riscv64_emu_rust.Decode.Table.{
  instructions_i, instructions_z, instructions_m, instructions_a, instructions_c,
}

-- The extensions of the configuration that the decoder asks for.
pub record Extensions : Type 0 where
  pub m : Bool
  pub a : Bool
  pub c : Bool

unfoldable pub enabled : Extensions → List Instruction
enabled isa =
    instructions_i
    ++ instructions_z
    ++ (if isa.m then instructions_m else [])
    ++ (if isa.a then instructions_a else [])
    ++ (if isa.c then instructions_c else [])

unfoldable pub inst_vec_of : Extensions → List Instruction
unfolding enabled sort_by_inst_cmp
inst_vec_of isa = sort_by_inst_cmp (enabled isa)

abbrev pub matches : ℕ → Instruction → Bool
matches inst_i x = bit_and x.mask inst_i == x.match_data

-- The first instruction that matches.
unfoldable pub find : ℕ → List Instruction → Option Instruction
find inst_i [] = none
find inst_i (x ∷ xs) = let rest = find inst_i xs in if matches inst_i x then some x else rest

-- The operations of `hashlink::LruCache`; `get` makes the entry the most recent one.
pub record LruCache (C : Type 0) : Type 0 where
  pub new : ℕ → C
  pub capacity : C → ℕ
  pub clear : C → C
  pub get : ℕ → C → Option Instruction × C
  pub insert : ℕ → Instruction → C → C

pub record InstDecode (C : Type 0) : Type 0 where
  pub inst_vec : List Instruction
  pub inst_hash : C
  pub hit : ℕ
  pub miss : ℕ
  pub remove_count : ℕ

abbrev pub unwrap_or : {A : Type 0} → A → Option A → A
unwrap_or d none = d
unwrap_or d (some x) = x

module _ {C : Type 0} (lru : LruCache C) where
  unfoldable pub new : Extensions → Option ℕ → InstDecode C
  unfolding inst_vec_of
  new isa decode_cache_size = record {
    inst_vec = inst_vec_of isa;
    inst_hash = lru.new (unwrap_or 0 decode_cache_size);
    hit = 0;
    miss = 0;
    remove_count = 0;
  }

  abbrev pub no_decode_cache : InstDecode C → Bool
  no_decode_cache d = lru.capacity d.inst_hash == 0

  unfoldable pub reset : InstDecode C → InstDecode C
  reset d = record d { inst_hash = lru.clear d.inst_hash; hit = 0; miss = 0; remove_count = 0 }

  abbrev pub remember : ℕ → Option Instruction → InstDecode C → InstDecode C
  remember inst_i none d = d
  remember inst_i (some slow) d = record d { inst_hash = lru.insert inst_i slow d.inst_hash }

  unfoldable pub slow_path : ℕ → InstDecode C → Option Instruction × InstDecode C
  unfolding find
  slow_path inst_i d =
      let slowpath = find inst_i d.inst_vec in
      (slowpath, if no_decode_cache d then d else remember inst_i slowpath d)

  -- What the answer of the cache leads to, with `d` the decoder that has asked it.
  abbrev pub answer :
      ℕ → Option Instruction → InstDecode C → Option (Option Instruction × InstDecode C)
  answer inst_i (some x) d =
      assert (ltb (d.hit + 1) (2 ^ 64)) (some (some x, record d { hit = d.hit + 1 }))
  answer inst_i none d =
      assert (ltb (d.miss + 1) (2 ^ 64)) (some (slow_path inst_i (record d { miss = d.miss + 1 })))

  unfoldable pub fast_path : ℕ → InstDecode C → Option (Option Instruction × InstDecode C)
  unfolding slow_path
  fast_path inst_i d =
      let asked = lru.get inst_i d.inst_hash in
      let cached = answer inst_i asked.0 (record d { inst_hash = asked.1 }) in
      if no_decode_cache d then some (slow_path inst_i d) else cached

  -- The words that a hart fetches, decoded one after the other.
  unfoldable pub decode_all :
      List ℕ → InstDecode C → Option (List (Option Instruction) × InstDecode C)
  unfolding fast_path
  decode_all [] d = some ([], d)
  decode_all (w ∷ ws) d = do
    (x, d') ← fast_path w d
    (xs, d'') ← decode_all ws d'
    some (x ∷ xs, d'')
