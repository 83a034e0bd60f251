-- ===== src/Kube/Keys.antt =====
-- The names of objects, and maps by them.
use backup_operator.Base.{
  ◌≡◌, refl, sym, ap, ◌∙◌, ◌≢◌, ◌==◌, eq_iff, eq_refl, Bool, Bool-cases, true, false, inl, inr, ◌⊎◌,
  ◌&&◌, if◌then◌else◌, arith,
}
use mathlib.Core.Path.{fun_ext}
use backup_operator.Kube.Meta.{NamespacedName}

abbrev pub same_key : NamespacedName → NamespacedName → Bool
same_key a b = (a.name == b.name) && (a.namespace == b.namespace)

pub same_key-eq : (a b : NamespacedName) → same_key a b ≡ true → a ≡ b
same_key-eq a b h =
    let n : a.name ≡ b.name = ground (arith, eq_iff a.name b.name) in
    let m : a.namespace ≡ b.namespace = ground (arith, eq_iff a.namespace b.namespace) in
    λ i. record { name = n i; namespace = m i }

pub same_key_refl : (a : NamespacedName) → same_key a a ≡ true
same_key_refl a = rw (eq_refl a.name, eq_refl a.namespace) refl

pub true-not_false : ¬ (true ≡ false)
true-not_false h = cc

pub key-cases : (a b : NamespacedName) → (a ≡ b) ⊎ (a ≢ b)
key-cases a b = elim (Bool-cases (same_key a b)) [
  | inl same ↦ inl (same_key-eq a b same)
  | inr differ ↦ inr (λ e. true-not_false (sym (same_key_refl a) ∙ ap (same_key a) e ∙ differ))
]

-- A map from names to objects, written at one name.
module _ {ℓ} {A : Type ℓ} where
  abbrev pub put_key : NamespacedName → A → (NamespacedName → A) → NamespacedName → A
  put_key k v m j = if same_key k j then v else m j

  pub put_key_self : (k : NamespacedName) (v : A) (m : NamespacedName → A) → put_key k v m k ≡ v
  put_key_self k v m = rw (same_key_refl k) refl

  pub put_key_ne :
      (k j : NamespacedName) (v : A) (m : NamespacedName → A) → k ≢ j → put_key k v m j ≡ m j
  put_key_ne k j v m other = elim (Bool-cases (same_key k j)) [
    | inl same ↦ absurd (other (same_key-eq k j same))
    | inr differ ↦ rw differ refl
  ]

  pub put_key_twice :
      (k : NamespacedName) (u v : A) (m : NamespacedName → A)
      → put_key k u (put_key k v m) ≡ put_key k u m
  put_key_twice k u v m = fun_ext λ j. elim (Bool-cases (same_key k j)) [
    | inl same ↦ rw same refl
    | inr differ ↦ rw differ refl
  ]

  pub put_key_comm :
      (k j : NamespacedName) (u v : A) (m : NamespacedName → A)
      → k ≢ j
      → put_key k u (put_key j v m) ≡ put_key j v (put_key k u m)
  put_key_comm k j u v m other = fun_ext λ i. elim (Bool-cases (same_key k i)) [
    | inl here ↦ elim (Bool-cases (same_key j i)) [
      | inl there ↦ absurd (other (same_key-eq k i here ∙ sym (same_key-eq j i there)))
      | inr away ↦ rw (here, away) refl
    ]
    | inr away ↦ rw away refl
  ]

  -- Writing what is there changes nothing.
  pub put_key_same :
      (k : NamespacedName) (v : A) (m : NamespacedName → A) → m k ≡ v → put_key k v m ≡ m
  put_key_same k v m here = fun_ext λ j. elim (Bool-cases (same_key k j)) [
    | inl same ↦ rw same (sym here ∙ ap m (same_key-eq k j same))
    | inr differ ↦ rw differ refl
  ]
