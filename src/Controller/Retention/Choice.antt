-- ===== src/Controller/Retention/Choice.antt =====
-- Which records the retention policy chooses.
use backup_operator.Base.{
  ℕ, ◌+◌, ◌-◌, ◌≤◌, ◌≡◌, refl, sym, ap, ◌∙◌, ◌↔◌, ◌⊎◌, inl, inr, ℤ, pos, negsuc, ◌+ℤ◌, ◌<ℤ◌, ltb,
  Bool-cases, true, Option, none, some, List, [], ◌++◌, length, drop, Place, ltb_ℤ, leb, get_elem?,
  get_elem?-drop, get_elem?-lt, Place-append, Place-append_left, Place-append_right, Place-filter,
  Place-filter_of, ok, panic, arith, if◌then◌else◌,
}
use backup_operator.Kube.{Time}
use backup_operator.Api.{RetentionPolicy, BackupRecord}
use backup_operator.Controller.Retention.{
  max_age_of, is_too_old, slice_from, beyond_count, beyond_age, filter_records_to_delete,
}

-- The record at place `i` lies past the maximal count.
abbrev pub IsBeyondCount : Option ℤ → ℕ → Type 0
IsBeyondCount none i = ⊥
IsBeyondCount (some (pos n)) i = n ≤ i
IsBeyondCount (some (negsuc n)) i = Unit

-- The record is older than the maximal age.
abbrev pub IsBeyondAge : Time → Option ℤ → BackupRecord → Type 0
IsBeyondAge now none r = ⊥
IsBeyondAge now (some days) r = r.meta.creation_timestamp +ℤ max_age_of days <ℤ now

abbrev pub IsDoomed : Time → RetentionPolicy → ℕ → BackupRecord → Type 0
IsDoomed now policy i r =
    IsBeyondCount policy.max_backup_count i ⊎ IsBeyondAge now policy.max_age_days r

-- The count is absent or not negative.
abbrev pub HasCount : Option ℤ → Type 0
HasCount none = Unit
HasCount (some (pos n)) = Unit
HasCount (some (negsuc n)) = ⊥

-- The records past the count, as a list.
abbrev pub tail_of : List BackupRecord → Option ℤ → List BackupRecord
tail_of rs none = []
tail_of rs (some (pos n)) = if ltb n (length rs) then drop n rs else []
tail_of rs (some (negsuc n)) = []

ltb_ℤ-pos : (a b : ℕ) → ltb_ℤ (pos a) (pos b) ≡ ltb a b
ltb_ℤ-pos a b = elim (Bool-cases (ltb a b)) [ inl h ↦ ground arith | inr h ↦ ground arith ]

beyond_count_ok :
    (rs : List BackupRecord) (c : Option ℤ) → HasCount c → beyond_count rs c ≡ ok (tail_of rs c)
unfolding beyond_count slice_from
beyond_count_ok rs none h = refl
beyond_count_ok rs (some (pos n)) h = elim (Bool-cases (ltb n (length rs))) [
  | inl more ↦
      let within : leb n (length rs) ≡ true = ground arith in rw (ltb_ℤ-pos, more, within) refl
  | inr less ↦ rw (ltb_ℤ-pos, less) refl
]
beyond_count_ok rs (some (negsuc n)) h = absurd h

pub filter_records_ok :
    (now : Time) (rs : List BackupRecord) (policy : RetentionPolicy)
    → HasCount policy.max_backup_count
    → filter_records_to_delete now rs policy
      ≡ ok (tail_of rs policy.max_backup_count ++ beyond_age now rs policy.max_age_days)
unfolding filter_records_to_delete
filter_records_ok now rs policy h = rw (beyond_count_ok rs policy.max_backup_count h)

pub Place-tail_of :
    (rs : List BackupRecord) (c : Option ℤ) (r : BackupRecord)
    → HasCount c
    → Place r (tail_of rs c) ↔ ((i : ℕ) × (get_elem? rs i ≡ some r) × IsBeyondCount c i)
Place-tail_of rs none r h = (λ p. absurd (cc p.1), λ p. absurd (p.2))
Place-tail_of rs (some (negsuc n)) r h = absurd h
Place-tail_of rs (some (pos n)) r h = elim (Bool-cases (ltb n (length rs))) [
  | inl more ↦ rw more (
    λ p. (n + p.0, sym (get_elem?-drop n p.0 rs) ∙ p.1, omega arith),
    λ p. (p.0 - n, get_elem?-drop n (p.0 - n) rs ∙ ap (get_elem? rs) (omega arith) ∙ p.1),
  )
  | inr less ↦
      rw less (λ p. absurd (cc p.1), λ p. absurd (ground (arith, get_elem?-lt rs p.0 p.1, p.2)))
]

pub Place-beyond_age :
    (now : Time) (rs : List BackupRecord) (d : Option ℤ) (r : BackupRecord)
    → Place r (beyond_age now rs d) ↔ (Place r rs × IsBeyondAge now d r)
unfolding beyond_age
Place-beyond_age now rs none r = (λ p. absurd (cc p.1), λ p. absurd (p.1))
Place-beyond_age now rs (some d) r = (
  λ p.
      let (place, old) = Place-filter (is_too_old now (max_age_of d)) r rs p in
      (place, ground (arith, old)),
  λ p. Place-filter_of (is_too_old now (max_age_of d)) r rs p.0 (ground (arith, p.1)),
)

Place-IsDoomed :
    (now : Time) (rs : List BackupRecord) (policy : RetentionPolicy) (r : BackupRecord)
    → HasCount policy.max_backup_count
    → Place r (tail_of rs policy.max_backup_count ++ beyond_age now rs policy.max_age_days)
      ↔ ((i : ℕ) × (get_elem? rs i ≡ some r) × IsDoomed now policy i r)
Place-IsDoomed now rs policy r h =
    let (in_tail, tail_has) = Place-tail_of rs policy.max_backup_count r h in
    let (in_old, old_has) = Place-beyond_age now rs policy.max_age_days r in
    (
      λ p. elim (Place-append _ _ p) [
        | inl q ↦ let (i, e, b) = in_tail q in (i, e, inl b)
        | inr q ↦ let (place, old) = in_old q in (place.0, place.1, inr old)
      ],
      λ p. elim (p.2) [
        | inl b ↦ Place-append_left _ _ (tail_has (p.0, p.1, b))
        | inr b ↦ Place-append_right _ _ (old_has ((p.0, p.1), b))
      ],
    )

-- With a maximal count that is absent or not negative, the policy chooses exactly the records whose
-- place in the list is at or past the count, and those whose creation time plus the maximal age
-- lies before now.
pub filter_records_choice :
    (now : Time) (rs : List BackupRecord) (policy : RetentionPolicy)
    → HasCount policy.max_backup_count
    → (doomed : List BackupRecord) × (filter_records_to_delete now rs policy ≡ ok doomed)
      × ((r : BackupRecord)
          → Place r doomed ↔ ((i : ℕ) × (get_elem? rs i ≡ some r) × IsDoomed now policy i r))
filter_records_choice now rs policy h = (
  tail_of rs policy.max_backup_count ++ beyond_age now rs policy.max_age_days,
  filter_records_ok now rs policy h,
  λ r. Place-IsDoomed now rs policy r h,
)

filter_records_panic :
    (now : Time) (rs : List BackupRecord) (policy : RetentionPolicy) (n : ℕ)
    → policy.max_backup_count ≡ some (negsuc n)
    → filter_records_to_delete now rs policy ≡ panic "slice bounds out of range"
unfolding filter_records_to_delete
filter_records_panic now rs policy n e = ground arith

-- The choice is made without a panic exactly when the maximal count is absent or not negative: the
-- test of the length keeps every other slice in range.
pub filter_records_ok_iff :
    (now : Time) (rs : List BackupRecord) (policy : RetentionPolicy)
    → ((doomed : List BackupRecord) × (filter_records_to_delete now rs policy ≡ ok doomed))
      ↔ HasCount policy.max_backup_count
filter_records_ok_iff now rs policy = (sound, λ h. (_, filter_records_ok now rs policy h))
  where
    sound :
        (doomed : List BackupRecord) × (filter_records_to_delete now rs policy ≡ ok doomed)
        → HasCount policy.max_backup_count
    sound p = with_count policy.max_backup_count refl
      where
        with_count : (c : Option ℤ) → policy.max_backup_count ≡ c → HasCount c
        with_count none e = tt
        with_count (some (pos n)) e = tt
        with_count (some (negsuc n)) e = cc (p.1, filter_records_panic now rs policy n e)
