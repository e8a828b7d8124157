-- ===== src/Decode/Laws/Order.antt =====
-- The order of `inst_cmp` of src/rv64core/inst/inst_base.rs, and the sort by it.
use mathlib.Core.Path.{subst}
use riscv64_emu_rust.Base.{
  Bool, true, false, List, [], ◌∷◌, some, ℕ, ◌≡◌, refl, sym, arith, All, Any, inl, inr, Bool-cases,
  ◌⊎◌,
}
use riscv64_emu_rust.Decode.Pattern.{
  Instruction, less, equal, greater, inst_cmp, insert, sort_by_inst_cmp,
}
use riscv64_emu_rust.Decode.{matches, find}

unfoldable pub precedes : Instruction → Instruction → Bool
unfolding inst_cmp
precedes p q = elim (inst_cmp p q) [ less ↦ true | equal ↦ true | greater ↦ false ]

precedes_refl : (p : Instruction) → precedes p p ≡ true
unfolding inst_cmp precedes
precedes_refl p = ground arith

precedes_total : (p q : Instruction) → precedes p q ≡ false → precedes q p ≡ true
unfolding inst_cmp precedes
precedes_total p q h = ground arith

precedes_trans :
    (p q r : Instruction) → precedes p q ≡ true → precedes q r ≡ true → precedes p r ≡ true
unfolding inst_cmp precedes
precedes_trans p q r h k = ground arith

insert_before :
    (x y : Instruction) (ys : List Instruction)
    → precedes x y ≡ true
    → insert x (y ∷ ys) ≡ x ∷ y ∷ ys
unfolding insert inst_cmp precedes
insert_before x y ys h = ground arith

insert_after :
    (x y : Instruction) (ys : List Instruction)
    → precedes x y ≡ false
    → insert x (y ∷ ys) ≡ y ∷ insert x ys
unfolding insert inst_cmp precedes
insert_after x y ys h = ground arith

insert-cases :
    (x y : Instruction) (ys : List Instruction)
    → ((precedes x y ≡ true) × (insert x (y ∷ ys) ≡ x ∷ y ∷ ys))
      ⊎ ((precedes y x ≡ true) × (insert x (y ∷ ys) ≡ y ∷ insert x ys))
insert-cases x y ys = elim (Bool-cases (precedes x y)) [
  | inl e ↦ inl (e, insert_before x y ys e)
  | inr e ↦ inr (precedes_total x y e, insert_after x y ys e)
]

All-insert :
    (P : Instruction → Type 0) (x : Instruction) (ys : List Instruction)
    → P x
    → All P ys
    → All P (insert x ys)
unfolding insert
All-insert P x [] h k = (h, tt)
All-insert P x (y ∷ ys) h (k, ks) = elim (insert-cases x y ys) [
  | inl (b, e) ↦ subst (All P) (sym e) (h, (k, ks))
  | inr (b, e) ↦ subst (All P) (sym e) (k, All-insert P x ys h ks)
]

-- Every element precedes those after it.
abbrev IsOrdered : List Instruction → Type 0
IsOrdered [] = Unit
IsOrdered (x ∷ xs) = All (λ y. precedes x y ≡ true) xs × IsOrdered xs

All-mono :
    (x y : Instruction) (ys : List Instruction)
    → precedes x y ≡ true
    → All (λ z. precedes y z ≡ true) ys
    → All (λ z. precedes x z ≡ true) ys
All-mono x y [] b h = tt
All-mono x y (z ∷ zs) b (h, hs) = (precedes_trans x y z b h, All-mono x y zs b hs)

insert-IsOrdered :
    (x : Instruction) (ys : List Instruction) → IsOrdered ys → IsOrdered (insert x ys)
unfolding insert
insert-IsOrdered x [] h = (tt, tt)
insert-IsOrdered x (y ∷ ys) (h, hs) = elim (insert-cases x y ys) [
  | inl (b, e) ↦ subst IsOrdered (sym e) ((b, All-mono x y ys b h), (h, hs))
  | inr (b, e) ↦
      subst IsOrdered (sym e)
        (All-insert (λ z. precedes y z ≡ true) x ys b h, insert-IsOrdered x ys hs)
]

sort-IsOrdered : (xs : List Instruction) → IsOrdered (sort_by_inst_cmp xs)
unfolding sort_by_inst_cmp
sort-IsOrdered [] = tt
sort-IsOrdered (x ∷ xs) = insert-IsOrdered x (sort_by_inst_cmp xs) (sort-IsOrdered xs)

-- The elements of a list are those of the sorted one.
module _ (q : Instruction) where
  Any-insert :
      (x : Instruction) (ys : List Instruction)
      → Any (λ z. z ≡ q) (x ∷ ys)
      → Any (λ z. z ≡ q) (insert x ys)
  unfolding insert
  Any-insert x [] h = h
  Any-insert x (y ∷ ys) h = elim (insert-cases x y ys) [
    | inl (b, e) ↦ subst (Any (λ z. z ≡ q)) (sym e) h
    | inr (b, e) ↦ subst (Any (λ z. z ≡ q)) (sym e) (elim h [
      | inl a ↦ inr (Any-insert x ys (inl a))
      | inr (inl a) ↦ inl a
      | inr (inr a) ↦ inr (Any-insert x ys (inr a))
    ])
  ]

  Any-sort : (xs : List Instruction) → Any (λ z. z ≡ q) xs → Any (λ z. z ≡ q) (sort_by_inst_cmp xs)
  unfolding sort_by_inst_cmp
  Any-sort [] h = elim h [ ]
  Any-sort (x ∷ xs) (inl e) = Any-insert x (sort_by_inst_cmp xs) (inl e)
  Any-sort (x ∷ xs) (inr h) = Any-insert x (sort_by_inst_cmp xs) (inr (Any-sort xs h))

  insert_Any :
      (x : Instruction) (ys : List Instruction)
      → Any (λ z. z ≡ q) (insert x ys)
      → Any (λ z. z ≡ q) (x ∷ ys)
  unfolding insert
  insert_Any x [] h = h
  insert_Any x (y ∷ ys) h = elim (insert-cases x y ys) [
    | inl (b, e) ↦ subst (Any (λ z. z ≡ q)) e h
    | inr (b, e) ↦ elim (subst (Any (λ z. z ≡ q)) e h) [
      | inl a ↦ inr (inl a)
      | inr a ↦ elim (insert_Any x ys a) [ inl a ↦ inl a | inr a ↦ inr (inr a) ]
    ]
  ]

  sort_Any : (xs : List Instruction) → Any (λ z. z ≡ q) (sort_by_inst_cmp xs) → Any (λ z. z ≡ q) xs
  unfolding sort_by_inst_cmp
  sort_Any [] h = h
  sort_Any (x ∷ xs) h = elim (insert_Any x (sort_by_inst_cmp xs) h) [
    | inl e ↦ inl e
    | inr a ↦ inr (sort_Any xs a)
  ]

precedes-Any :
    (x q : Instruction) (xs : List Instruction)
    → All (λ z. precedes x z ≡ true) xs
    → Any (λ z. z ≡ q) xs
    → precedes x q ≡ true
precedes-Any x q [] h at = elim at [ ]
precedes-Any x q (y ∷ ys) (h, hs) (inl e) = subst (λ z. precedes x z ≡ true) e h
precedes-Any x q (y ∷ ys) (h, hs) (inr a) = precedes-Any x q ys hs a

-- The search in an ordered list stops at a match that precedes every other one.
find-first :
    (w : ℕ) (q : Instruction) (xs : List Instruction)
    → IsOrdered xs
    → Any (λ z. z ≡ q) xs
    → matches w q ≡ true
    → (p : Instruction) × (find w xs ≡ some p)
      × (matches w p ≡ true)
      × (precedes p q ≡ true)
      × Any (λ z. z ≡ p) xs
unfolding find
find-first w q [] h at hit = elim at [ ]
find-first w q (x ∷ xs) (h, hs) at hit = elim (Bool-cases (matches w x)) [
  | inl e ↦ (
    x,
    rw e refl,
    e,
    elim at [
      | inl same ↦ subst (λ z. precedes x z ≡ true) same (precedes_refl x)
      | inr a ↦ precedes-Any x q xs h a
    ],
    inl refl,
  )
  | inr e ↦ elim at [
    | inl same ↦ absurd (subst (λ z. matches w z ≡ true → ⊥) same (λ t. cc) hit)
    | inr a ↦
        let (p, found, hit', first, at') = find-first w q xs hs a hit in
        (p, rw (e, found) refl, hit', first, inr at')
  ]
]

-- The sorted table answers with a match that precedes every other one.
pub find-sort :
    (w : ℕ) (q : Instruction) (xs : List Instruction)
    → Any (λ z. z ≡ q) xs
    → matches w q ≡ true
    → (p : Instruction) × (find w (sort_by_inst_cmp xs) ≡ some p)
      × (matches w p ≡ true)
      × (precedes p q ≡ true)
      × Any (λ z. z ≡ p) xs
find-sort w q xs at hit =
    let (p, found, hit', first, at') =
      find-first w q (sort_by_inst_cmp xs) (sort-IsOrdered xs) (Any-sort q xs at) hit in
    (p, found, hit', first, sort_Any p xs at')
