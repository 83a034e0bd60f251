-- ===== src/Kube/Meta.antt =====
-- metav1: object metadata and labels, times, and the references of corev1.
use backup_operator.Base.{
  ℤ, is_zero, String, Bool, true, false, ◌&&◌, Option, none, some, List, [], ◌∷◌, ◌==◌,
  if◌then◌else◌,
}

-- A `time.Time`, in nanoseconds since Go's zero time, and a `time.Duration`, in nanoseconds.
abbrev pub Time : Type 0
Time = ℤ

abbrev pub Duration : Type 0
Duration = ℤ

-- A `map[string]string` by its entries.
abbrev pub Labels : Type 0
Labels = List (String × String)

abbrev pub lookup {ℓ} : {V : Type ℓ} → String → List (String × V) → Option V
lookup k [] = none
lookup k ((j, v) ∷ m) = if j == k then some v else lookup k m

abbrev pub has_label : Labels → String × String → Bool
has_label labels (k, v) = elim (lookup k labels) [ none ↦ false | some x ↦ x == v ]

-- The selection of `client.MatchingLabels`: every wanted pair is among the object's labels.
abbrev pub matches_labels : Labels → Labels → Bool
matches_labels [] labels = true
matches_labels (want ∷ rest) labels = has_label labels want && matches_labels rest labels

pub record ObjectMeta : Type 0 where
  pub name : String
  pub namespace : String
  pub uid : String
  pub labels : Labels
  pub annotations : Labels
  pub finalizers : List String
  pub owner_references : List String
  pub generation : ℤ
  pub creation_timestamp : Time
  pub deletion_timestamp : Option Time

-- `IsZero` of a `*metav1.Time`: nil, or the zero time.
abbrev pub is_zero_time : Option Time → Bool
is_zero_time none = true
is_zero_time (some t) = is_zero t

pub record NamespacedName : Type 0 where
  pub name : String
  pub namespace : String

abbrev pub key_of : ObjectMeta → NamespacedName
key_of m = record { name = m.name; namespace = m.namespace }

pub record SecretReference : Type 0 where
  pub name : String
  pub namespace : String

pub record TypedLocalObjectReference : Type 0 where
  pub api_group : Option String
  pub kind : String
  pub name : String

pub record ObjectReference : Type 0 where
  pub api_version : String
  pub kind : String
  pub name : String
  pub namespace : String
  pub uid : String

pub record LabelSelector : Type 0 where
  pub match_labels : Labels
  pub other : String
