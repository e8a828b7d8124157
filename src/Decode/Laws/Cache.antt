-- ===== src/Decode/Laws/Cache.antt =====
-- The decode cache of src/rv64core/inst_decode.rs: it never changes an answer.
use mathlib.Core.Path.{subst}
use riscv64_emu_rust.Base.{
  true, false, List, [], ◌∷◌, Option, none, some, ℕ, ◌+◌, ◌^◌, ◌<◌, ◌≤◌, ◌==◌, ◌≡◌, refl, sym, ap,
  ◌∙◌, arith, inl, inr, ◌⊎◌, Bool-cases, Option-cases, length, lt→ltb, if◌then◌else◌,
}
use riscv64_emu_rust.Decode.Pattern.{Instruction}
use riscv64_emu_rust.Decode.{
  Extensions, LruCache, InstDecode, find, slow_path, fast_path, decode_all, no_decode_cache, reset,
  new, remember,
}

-- What the documentation of the crate promises: a new or a cleared cache is empty, an insertion
-- stores the value and may drop other entries, and a lookup only changes the order of use.
pub record IsCache {C : Type 0} (lru : LruCache C) : Type 0 where
  pub get-new : (n k : ℕ) → (lru.get k (lru.new n)).0 ≡ none
  pub get-clear : (k : ℕ) (c : C) → (lru.get k (lru.clear c)).0 ≡ none
  pub get-get : (j k : ℕ) (c : C) → (lru.get j (lru.get k c).1).0 ≡ (lru.get j c).0
  pub get-insert :
      (j k : ℕ) (v : Instruction) (c : C)
      → ((lru.get j (lru.insert k v c)).0 ≡ none)
        ⊎ ((lru.get j (lru.insert k v c)).0 ≡ (if j == k then some v else (lru.get j c).0))

-- An entry, where there is one, is what the search finds.
abbrev Confirms : Option Instruction → Option Instruction → Type 0
Confirms none found = Unit
Confirms (some x) found = found ≡ some x

abbrev pub find_all : List Instruction → List ℕ → List (Option Instruction)
find_all inst_vec [] = []
find_all inst_vec (w ∷ ws) = find w inst_vec ∷ find_all inst_vec ws

same_word : (j k : ℕ) → (j == k) ≡ true → j ≡ k
same_word j k h = ground arith

module _ {C : Type 0} (lru : LruCache C) where
  abbrev pub IsCoherent : InstDecode C → Type 0
  IsCoherent d = (k : ℕ) → Confirms (lru.get k d.inst_hash).0 (find k d.inst_vec)

module _ {C : Type 0} (lru : LruCache C) (laws : IsCache lru) where
  pub new-IsCoherent : (isa : Extensions) (size : Option ℕ) → IsCoherent lru (new lru isa size)
  unfolding new
  new-IsCoherent isa none k = rw (laws.get-new 0 k) tt
  new-IsCoherent isa (some n) k = rw (laws.get-new n k) tt

  reset-IsCoherent : (d : InstDecode C) → IsCoherent lru (reset lru d)
  unfolding reset
  reset-IsCoherent d k = rw (laws.get-clear k d.inst_hash) tt

  remember-IsCoherent :
      (w : ℕ) (found : Option Instruction) (d : InstDecode C)
      → find w d.inst_vec ≡ found
      → IsCoherent lru d
      → IsCoherent lru (remember lru w found d)
  remember-IsCoherent w none d e h k = h k
  remember-IsCoherent w (some x) d e h k = elim (laws.get-insert k w x d.inst_hash) [
    | inl gone ↦ rw gone tt
    | inr kept ↦ elim (Bool-cases (k == w)) [
      | inl s ↦ rw (kept, s) (rw (same_word k w s) e)
      | inr s ↦ rw (kept, s) (h k)
    ]
  ]

  slow_path-outcome :
      (w : ℕ) (d : InstDecode C)
      → IsCoherent lru d
      → (d' : InstDecode C) × (slow_path lru w d ≡ (find w d.inst_vec, d'))
        × IsCoherent lru d'
        × (d'.inst_vec ≡ d.inst_vec)
        × (d'.hit ≡ d.hit)
        × (d'.miss ≡ d.miss)
  unfolding slow_path
  slow_path-outcome w d h = elim (Bool-cases (no_decode_cache lru d)) [
    | inl e ↦ (d, rw e refl, h, refl, refl, refl)
    | inr e ↦ elim (Option-cases (find w d.inst_vec)) [
      | inl f ↦ (d, rw (e, f) refl, h, refl, refl, refl)
      | inr (x, f) ↦ (
        remember lru w (some x) d,
        rw (e, f) refl,
        remember-IsCoherent w (some x) d f h,
        refl,
        refl,
        refl,
      )
    ]
  ]

  asked_IsCoherent :
      (w : ℕ) (d : InstDecode C)
      → IsCoherent lru d
      → IsCoherent lru (record d { inst_hash = (lru.get w d.inst_hash).1 })
  asked_IsCoherent w d h k =
      subst (λ o. Confirms o (find k d.inst_vec)) (sym (laws.get-get k w d.inst_hash)) (h k)

  uncached_lem :
      (w : ℕ) (d : InstDecode C)
      → no_decode_cache lru d ≡ true
      → fast_path lru w d ≡ some (slow_path lru w d)
  unfolding fast_path
  uncached_lem w d e = rw e refl

  missed_lem :
      (w : ℕ) (d : InstDecode C)
      → no_decode_cache lru d ≡ false
      → (lru.get w d.inst_hash).0 ≡ none
      → d.miss + 1 < 2 ^ 64
      → fast_path lru w d
        ≡ some (
            slow_path lru w (record d { inst_hash = (lru.get w d.inst_hash).1; miss = d.miss + 1 }))
  unfolding fast_path
  missed_lem w d e f sm = rw (e, f, lt→ltb (d.miss + 1) (2 ^ 64) sm) refl

  fast_path-outcome :
      (w : ℕ) (d : InstDecode C)
      → IsCoherent lru d
      → d.hit + 1 < 2 ^ 64
      → d.miss + 1 < 2 ^ 64
      → (d' : InstDecode C) × (fast_path lru w d ≡ some (find w d.inst_vec, d'))
        × IsCoherent lru d'
        × (d'.inst_vec ≡ d.inst_vec)
        × (d'.hit ≤ d.hit + 1)
        × (d'.miss ≤ d.miss + 1)
  unfolding fast_path
  fast_path-outcome w d h sh sm = elim (Bool-cases (no_decode_cache lru d)) [
    | inl e ↦
        let (d', run, coh, vec, hit, miss) = slow_path-outcome w d h in
        (d', uncached_lem w d e ∙ ap some run, coh, vec, omega (arith, hit), omega (arith, miss))
    | inr e ↦ elim (Option-cases (lru.get w d.inst_hash).0) [
      | inl f ↦
          let (d', run, coh, vec, hit, miss) =
            slow_path-outcome w
              (record d { inst_hash = (lru.get w d.inst_hash).1; miss = d.miss + 1 })
              (asked_IsCoherent w d h) in
          (
            d',
            missed_lem w d e f sm ∙ ap some run,
            coh,
            vec,
            omega (arith, hit),
            omega (arith, miss),
          )
      | inr (x, f) ↦
          let found : find w d.inst_vec ≡ some x =
            subst (λ o. Confirms o (find w d.inst_vec)) f (h w) in
          (
            record d { inst_hash = (lru.get w d.inst_hash).1; hit = d.hit + 1 },
            rw (e, f, lt→ltb (d.hit + 1) (2 ^ 64) sh, found) refl,
            asked_IsCoherent w d h,
            refl,
            omega arith,
            omega arith,
          )
    ]
  ]

  -- The cache never changes an answer: a decoder whose entries are all what the search finds decodes
  -- any words, one after the other, to what the search finds for each, and neither a counter
  -- overflows nor does the code panic, while fewer than 2 ^ 64 words are counted. Its entries stay
  -- what the search finds, also over a reset. The operations of the cache do as the crate documents,
  -- whatever entries they drop.
  pub decode_all-find :
      (ws : List ℕ) (d : InstDecode C)
      → IsCoherent lru d
      → d.hit + length ws < 2 ^ 64
      → d.miss + length ws < 2 ^ 64
      → (d' : InstDecode C) × (decode_all lru ws d ≡ some (find_all d.inst_vec ws, d'))
        × IsCoherent lru d'
        × IsCoherent lru (reset lru d')
        × (d'.inst_vec ≡ d.inst_vec)
  unfolding decode_all
  decode_all-find [] d h sh sm = (d, refl, h, reset-IsCoherent d, refl)
  decode_all-find (w ∷ ws) d h sh sm =
      let (d', run, coh, vec, hit, miss) = fast_path-outcome w d h (omega arith) (omega arith) in
      let (d'', run', coh', coh'', vec') =
        decode_all-find ws d' coh (omega (arith, hit)) (omega (arith, miss)) in
      (d'', rw (run, run', vec) refl, coh', coh'', vec' ∙ vec)
