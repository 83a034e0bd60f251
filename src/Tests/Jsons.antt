-- ===== src/Tests/Jsons.antt =====
-- JSON texts of samples, and the config map of a task read back.
use mathlib.Core.Option
use backup_operator.Base.{
  ◌≡◌, ◌∙◌, ap, All, refl, true, negsuc, String, Option, none, some, List, [], ◌∷◌, ok,
}
use backup_operator.Kube.{SecretReference, TypedLocalObjectReference, LabelSelector, ConfigMap}
use backup_operator.Json.{
  Value, null, bool, number, text, array, object, nil, item, end, field, struct, omit_text, slice,
}
use backup_operator.Json.Text.{marshal_indent}
use backup_operator.Json.Lookup.{
  ◌>>=◌, as_text, as_list, as_pointer, text_of, as_list-slice, as_text-omit_text,
}
use backup_operator.Json.Targets.Reads.{KubeReads, fields_of, fields_of-struct}
use backup_operator.Controller.Reconcile.{create_target_config_map}
use backup_operator.Controller.Reconcile.ConfigMaps.{Carries, create_target_config_map-Carries}
use backup_operator.Tests.Samples.{nightly}
use backup_operator.Tests.Cluster.{kube_json, nullable, pair_json, test_client}

abbrev shown : Value
shown = object (
    field "name" (text "a<b\"c\n") (
      field "n" (number (negsuc 11)) (
        field "tags" (array (item (bool true) (item null nil)))
          (field "none" (array nil) (field "empty" (object end) end)))))

shown_text :
    marshal_indent shown
    ≡ "{\n  \"name\": \"a\\u003cb\\\"c\\n\",\n  \"n\": -12,\n  \"tags\": [\n    true,\n    null\n  ],\n  \"none\": [],\n  \"empty\": {}\n}"
unfolding marshal_indent
shown_text = refl

abbrev read_secret : (String → Option Value) → Option SecretReference
read_secret g = as_text (g "name") >>= λ n.
    as_text (g "namespace") >>= λ m. some (record { name = n; namespace = m })

reads_secret : (s : SecretReference) → fields_of read_secret (kube_json.secret s) ≡ some s
reads_secret s =
    fields_of-struct read_secret
      (("name", omit_text s.name) ∷ ("namespace", omit_text s.namespace) ∷ []) refl
    ∙ rw (as_text-omit_text s.name, as_text-omit_text s.namespace) refl

abbrev read_local : (String → Option Value) → Option TypedLocalObjectReference
read_local g = as_pointer text_of (g "apiGroup") >>= λ a. as_text (g "kind") >>= λ k.
    as_text (g "name") >>= λ n. some (record { api_group = a; kind = k; name = n })

nullable-read : (o : Option String) → as_pointer text_of (some (nullable o)) ≡ some o
unfolding text_of
nullable-read none = refl
nullable-read (some s) = refl

read_local-fields :
    (l : TypedLocalObjectReference) → fields_of read_local (kube_json.local l) ≡ some l
read_local-fields l =
    fields_of-struct read_local
      (("apiGroup", some (nullable l.api_group))
        ∷ ("kind", some (text l.kind))
        ∷ ("name", some (text l.name))
        ∷ [])
      refl
    ∙ rw (nullable-read l.api_group) refl

reads_local :
    (l : TypedLocalObjectReference)
    → as_pointer (fields_of read_local) (some (kube_json.local l)) ≡ some (some l)
unfolding struct
reads_local l = ap (Option.map some) (read_local-fields l)

abbrev pair_of : Value → Option (String × String)
pair_of (array (item (text k) (item (text v) nil))) = some (k, v)
pair_of _ = none

pairs : (ps : List (String × String)) → All (λ p. pair_of (pair_json p) ≡ some p) ps
pairs [] = tt
pairs ((k, v) ∷ ps) = (refl, pairs ps)

abbrev read_selector : (String → Option Value) → Option LabelSelector
read_selector g = as_list pair_of (g "matchLabels") >>= λ ls.
    as_text (g "other") >>= λ o. some (record { match_labels = ls; other = o })

read_selector-fields : (l : LabelSelector) → fields_of read_selector (kube_json.selector l) ≡ some l
read_selector-fields l =
    fields_of-struct read_selector
      (("matchLabels", some (slice pair_json l.match_labels)) ∷ ("other", some (text l.other)) ∷ [])
      refl
    ∙ rw (as_list-slice pair_of pair_json l.match_labels (pairs l.match_labels)) refl

reads_selector :
    (l : LabelSelector)
    → as_pointer (fields_of read_selector) (some (kube_json.selector l)) ≡ some (some l)
unfolding struct
reads_selector l = ap (Option.map some) (read_selector-fields l)

abbrev kube_reads : KubeReads kube_json
kube_reads = record {
  secret_of = fields_of read_secret;
  local_of = fields_of read_local;
  selector_of = fields_of read_selector;
  reads_secret = reads_secret;
  reads_local = reads_local;
  reads_selector = reads_selector;
}

create_target_config_map-Carries_example :
    (config : ConfigMap) × (create_target_config_map test_client nightly ≡ ok config)
    × Carries kube_reads nightly config
create_target_config_map-Carries_example =
    create_target_config_map-Carries test_client kube_reads nightly (refl, (refl, tt)) refl
