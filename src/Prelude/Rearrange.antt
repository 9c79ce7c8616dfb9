-- ===== src/Prelude/Rearrange.antt =====
-- Filtering a list, and rearranging it.
use mathlib.Core.Path.{◌≡◌}
use mathlib.Core.Bool.{Bool}
use mathlib.Core.Logic.{∥∥₁_elim, inl, inr}
use mathlib.Core.Logic.Or
use mathlib.Core.List.{
  List, [], ◌∷◌, Perm, Permᴰ, Perm-prop, Mem, mem-cons, mem-cons_self, mem-cons_of_mem,
}
use mathlib.Core.List.Perm
use us_flight_delay_mlops.Prelude.Tests.{Bool-cases}
use us_flight_delay_mlops.Prelude.Lists.{filter}

module _ {ℓ} {A : Type ℓ} (p : A → Bool) where
  filter-cons :
      (a b : A) (l r : List A)
      → a ≡ b
      → Perm (filter p l) (filter p r)
      → Perm (filter p (a ∷ l)) (filter p (b ∷ r))
  filter-cons a b l r e h =
      rw e (elim (Bool-cases (p b)) [ inl keep ↦ rw keep (Perm.cons b h) | inr drop ↦ rw drop h ])

  filter-swap : (a b : A) (l : List A) → Perm (filter p (a ∷ b ∷ l)) (filter p (b ∷ a ∷ l))
  filter-swap a b l = elim (Bool-cases (p a)) [
    | inl ka ↦ elim (Bool-cases (p b)) [
      | inl kb ↦ rw (ka, kb) (Perm.swap b a (filter p l))
      | inr db ↦ rw (ka, db) Perm.rfl
    ]
    | inr da ↦ rw da Perm.rfl
  ]

  filter-permᴰ : {l r : List A} → Permᴰ l r → Perm (filter p l) (filter p r)
  filter-permᴰ Permᴰ.nil = Perm.rfl
  filter-permᴰ (Permᴰ.cons {a} {b} {l₁} {l₂} e h) = filter-cons a b l₁ l₂ e (filter-permᴰ h)
  filter-permᴰ (Permᴰ.swap {a} {b} {a'} {b'} {l} e f) = rw (e, f) (filter-swap b' a' l)
  filter-permᴰ (Permᴰ.trans h k) = Perm.trans (filter-permᴰ h) (filter-permᴰ k)

  -- Filtering two rearrangements of a list gives rearrangements.
  pub filter-perm : {l r : List A} → Perm l r → Perm (filter p l) (filter p r)
  filter-perm h = ∥∥₁_elim h Perm-prop filter-permᴰ

  pub mem_of_mem-filter : {a : A} (l : List A) → Mem a (filter p l) → Mem a l
  mem_of_mem-filter [] m = m
  mem_of_mem-filter (x ∷ l) m = elim (Bool-cases (p x)) [
    | inl keep ↦
        Or.elim squash₁ (mem-cons.0 (rw keep at m)) (λ e. rw e mem-cons_self)
          (λ m'. mem-cons_of_mem x (mem_of_mem-filter l m'))
    | inr drop ↦ mem-cons_of_mem x (mem_of_mem-filter l (rw drop at m))
  ]
