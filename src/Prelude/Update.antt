-- ===== src/Prelude/Update.antt =====
-- Functions on the numbers that differ at one argument.
use Prim.Native.Nat.{ℕ}
use mathlib.Core.Path.{◌≡◌, sym, ◌∙◌, subst, fun_ext}
use mathlib.Core.Logic.{◌≢◌, inl, inr}
use libcorkipset.Prelude.Tests.{◌==◌, if◌then◌else◌, ==-refl, ne→==, eq-cases}

module _ {ℓ} {A : Type ℓ} where
  abbrev pub update : (ℕ → A) → ℕ → A → ℕ → A
  update f i a j = if i == j then a else f j

  pub update_self : (f : ℕ → A) (i : ℕ) (a : A) → update f i a i ≡ a
  update_self f i a = rw (==-refl i)

  pub update-ne : (f : ℕ → A) (i j : ℕ) (a : A) → i ≢ j → update f i a j ≡ f j
  update-ne f i j a h = rw (ne→== i j h)

  -- Of two writes to one place the second stays.
  pub update-twice : (f : ℕ → A) (x : ℕ) (v w : A) → update (update f x v) x w ≡ update f x w
  update-twice f x v w = fun_ext (λ z. elim (eq-cases x z) [
    | inl e ↦
        subst (λ z. update (update f x v) x w z ≡ update f x w z) e
          (update_self (update f x v) x w ∙ sym (update_self f x w))
    | inr ne ↦ update-ne (update f x v) x z w ne ∙ update-ne f x z v ne ∙ sym (update-ne f x z w ne)
  ])

  -- A write of what is there.
  pub update_there : (f : ℕ → A) (x : ℕ) (v : A) → f x ≡ v → update f x v ≡ f
  update_there f x v there = fun_ext (λ z. elim (eq-cases x z) [
    | inl e ↦ subst (λ z. update f x v z ≡ f z) e (update_self f x v ∙ sym there)
    | inr ne ↦ update-ne f x z v ne
  ])

  -- Writes to two places can change their order.
  pub update-update :
      (f : ℕ → A) (x y : ℕ) (v w : A)
      → x ≢ y
      → update (update f x v) y w ≡ update (update f y w) x v
  update-update f x y v w ne = fun_ext (λ z. elim (eq-cases x z) [
    | inl e ↦
        subst (λ z. update (update f x v) y w z ≡ update (update f y w) x v z) e
          (update-ne (update f x v) y x w (λ p. ne (sym p))
            ∙ update_self f x v
            ∙ sym (update_self (update f y w) x v))
    | inr other ↦ elim (eq-cases y z) [
      | inl e ↦
          subst (λ z. update (update f x v) y w z ≡ update (update f y w) x v z) e
            (update_self (update f x v) y w
              ∙ sym (update-ne (update f y w) x y v ne ∙ update_self f y w))
      | inr other' ↦
          update-ne (update f x v) y z w other'
          ∙ update-ne f x z v other
          ∙ sym (update-ne (update f y w) x z v other ∙ update-ne f y z w other')
    ]
  ])
