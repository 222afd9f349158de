-- ===== src/Handshake/Fields/Order.antt =====
-- Header fields in the order in which Go goes through a map.
use webson.Common.{
  ℕ, suc, ◌≤◌, ◌≡◌, refl, ap, ap₂, sym, ◌∙◌, Bool-cases, inl, inr, bytes_eq, List, [], ◌∷◌, length,
  All, arith,
}
use mathlib.Core.List.{Permᴰ}
use mathlib.Core.List.Permᴰ
use webson.Handshake.Fields.{Fields, values_of}

module _ {ℓ} {A : Type ℓ} where
  length-perm : {xs ys : List A} → Permᴰ xs ys → length xs ≡ length ys
  length-perm Permᴰ.nil = refl
  length-perm (Permᴰ.cons e d) = ap suc (length-perm d)
  length-perm (Permᴰ.swap e f) = refl
  length-perm (Permᴰ.trans d d') = length-perm d ∙ length-perm d'

  nil_of_length_0 : (xs ys : List A) → length xs ≡ length ys → length ys ≤ 0 → xs ≡ ys
  nil_of_length_0 [] [] e h = refl
  nil_of_length_0 [] (y ∷ ys) e h = absurd (omega arith)
  nil_of_length_0 (x ∷ xs) ys e h = absurd (omega arith)

  -- There is one order only for one element.
  perm_short : {xs ys : List A} → Permᴰ xs ys → length ys ≤ 1 → xs ≡ ys
  perm_short Permᴰ.nil h = refl
  perm_short (Permᴰ.cons {l₁ = xs} {l₂ = ys} e d) h =
      ap₂ (λ a t. a ∷ t) e (nil_of_length_0 xs ys (length-perm d) (omega arith))
  perm_short (Permᴰ.swap e f) h = absurd (omega arith)
  perm_short (Permᴰ.trans d d') h = perm_short d (omega (arith, length-perm d')) ∙ perm_short d' h

  pub All-perm {κ} : (P : A → Type κ) {xs ys : List A} → Permᴰ xs ys → All P ys → All P xs
  All-perm P Permᴰ.nil h = tt
  All-perm P (Permᴰ.cons e d) (hy, hys) = (rw e hy, All-perm P d hys)
  All-perm P (Permᴰ.swap e f) (hb, (ha, hl)) = (rw e ha, (rw f hb, hl))
  All-perm P (Permᴰ.trans d d') h = All-perm P d (All-perm P d' h)

values_of-cons :
    (key : List ℕ) (a : List ℕ × List ℕ) (fs gs : Fields)
    → Permᴰ (values_of key fs) (values_of key gs)
    → Permᴰ (values_of key (a ∷ fs)) (values_of key (a ∷ gs))
unfolding values_of
values_of-cons key (k, v) fs gs d = elim (Bool-cases (bytes_eq k key)) [
  | inl e ↦ rw e (Permᴰ.cons refl d)
  | inr e ↦ rw e d
]

values_of-swap :
    (key : List ℕ) (a b : List ℕ × List ℕ) (fs : Fields)
    → Permᴰ (values_of key (a ∷ b ∷ fs)) (values_of key (b ∷ a ∷ fs))
unfolding values_of
values_of-swap key (k, v) (j, w) fs = elim (Bool-cases (bytes_eq k key)) [
  | inl e ↦ elim (Bool-cases (bytes_eq j key)) [
    | inl q ↦ rw (e, q) (Permᴰ.swap refl refl)
    | inr q ↦ rw (e, q) (Permᴰ.refl _)
  ]
  | inr e ↦ rw e (Permᴰ.refl _)
]

values_of-perm :
    (key : List ℕ) {fs gs : Fields} → Permᴰ fs gs → Permᴰ (values_of key fs) (values_of key gs)
values_of-perm key Permᴰ.nil = Permᴰ.refl _
values_of-perm key (Permᴰ.cons {a = a} {b = b} {l₁ = fs} {l₂ = gs} e d) =
    rw e (values_of-cons key b fs gs (values_of-perm key d))
values_of-perm key (Permᴰ.swap {a = a} {b = b} {l = fs} e f) =
    rw (sym e, sym f) (values_of-swap key a b fs)
values_of-perm key (Permᴰ.trans d d') = Permᴰ.trans (values_of-perm key d) (values_of-perm key d')

-- A field that is there once at most is found in any order.
pub values_of-order :
    (key : List ℕ) {fs gs : Fields}
    → Permᴰ fs gs
    → length (values_of key gs) ≤ 1
    → values_of key fs ≡ values_of key gs
values_of-order key d h = perm_short (values_of-perm key d) h
