-- ===== src/Controller/EnvVars/Policies.antt =====
-- What the backup container reads of the retention policy.
use backup_operator.Base.{
  ◌≡◌, refl, ◌∙◌, ℤ, is_zero, itoa, String, ◌==◌, Bool-cases, inl, inr, Option, none, some, List,
  [], ◌∷◌, ◌++◌, if◌then◌else◌,
}
use backup_operator.Kube.{EnvVar}
use backup_operator.Api.{BackupTask, RetentionPolicy, KeepLastPolicy}
use backup_operator.Controller.EnvVars.{
  env_of_pointer, env_unless_zero, keep_last_to_env, retention_policy_to_env, build_env_vars,
}

-- The value of a variable in a list.
abbrev pub getenv : String → List EnvVar → Option String
getenv name [] = none
getenv name (e ∷ env) = let rest = getenv name env in if e.name == name then some e.value else rest

-- The number of a variable, if it is set.
abbrev pub written : Option ℤ → Option String
written none = none
written (some n) = some (itoa n)

abbrev pub unless_zero : ℤ → Option ℤ
unless_zero n = if is_zero n then none else some n

abbrev pub first_of : Option String → Option String → Option String
first_of none o = o
first_of (some x) o = some x

getenv-append :
    (name : String) (xs ys : List EnvVar)
    → getenv name (xs ++ ys) ≡ first_of (getenv name xs) (getenv name ys)
getenv-append name [] ys = refl
getenv-append name (e ∷ xs) ys = elim (Bool-cases (e.name == name)) [
  | inl here ↦ rw here refl
  | inr there ↦ rw there (getenv-append name xs ys)
]

-- What a variable of the name `other` contributes to the lookup of `name`.
abbrev pick : String → String → Option String → Option String
pick other name o = if other == name then o else none

getenv-pointer :
    (name other : String) (o : Option ℤ)
    → getenv name (env_of_pointer other o) ≡ pick other name (written o)
getenv-pointer name other none = elim (Bool-cases (other == name)) [
  | inl y ↦ rw y refl
  | inr n ↦ rw n refl
]
getenv-pointer name other (some n) = refl

getenv-number :
    (name other : String) (n : ℤ)
    → getenv name (env_unless_zero other n) ≡ pick other name (written (unless_zero n))
getenv-number name other n = elim (Bool-cases (is_zero n)) [
  | inl z ↦ elim (Bool-cases (other == name)) [ inl y ↦ rw (z, y) refl | inr x ↦ rw (z, x) refl ]
  | inr z ↦ rw z refl
]

-- The numbers of a policy that are set; a number of `keepLast` counts if it is not 0.
abbrev pub age_of : Option RetentionPolicy → Option ℤ
age_of none = none
age_of (some policy) = policy.max_age_days

abbrev pub count_of : Option RetentionPolicy → Option ℤ
count_of none = none
count_of (some policy) = policy.max_backup_count

abbrev pub kept : (KeepLastPolicy → ℤ) → Option KeepLastPolicy → Option ℤ
kept field none = none
kept field (some keep) = unless_zero (field keep)

abbrev pub keep_of : Option RetentionPolicy → Option KeepLastPolicy
keep_of none = none
keep_of (some policy) = policy.keep_last

-- The variables carry a policy.
pub record Carries (policy : Option RetentionPolicy) (env : List EnvVar) : Type 0 where
  pub age : getenv "RETENTION_MAX_AGE_DAYS" env ≡ written (age_of policy)
  pub count : getenv "RETENTION_MAX_BACKUP_COUNT" env ≡ written (count_of policy)
  pub hours :
      getenv "RETENTION_KEEP_LAST_HOURS" env ≡ written (kept (λ k. k.hours) (keep_of policy))
  pub days : getenv "RETENTION_KEEP_LAST_DAYS" env ≡ written (kept (λ k. k.days) (keep_of policy))
  pub weeks :
      getenv "RETENTION_KEEP_LAST_WEEKS" env ≡ written (kept (λ k. k.weeks) (keep_of policy))
  pub months :
      getenv "RETENTION_KEEP_LAST_MONTHS" env ≡ written (kept (λ k. k.months) (keep_of policy))

first_of-none : (o : Option String) → first_of o none ≡ o
first_of-none none = refl
first_of-none (some x) = refl

getenv-keep :
    (name : String) (keep : KeepLastPolicy)
    → getenv name (keep_last_to_env (some keep))
      ≡ first_of (pick "RETENTION_KEEP_LAST_HOURS" name (written (unless_zero keep.hours))) (
          first_of (pick "RETENTION_KEEP_LAST_DAYS" name (written (unless_zero keep.days))) (
            first_of
              (pick "RETENTION_KEEP_LAST_WEEKS" name (written (unless_zero keep.weeks)))
              (pick "RETENTION_KEEP_LAST_MONTHS" name (written (unless_zero keep.months)))))
unfolding keep_last_to_env
getenv-keep name keep =
    rw
      (
        getenv-append,
        getenv-append,
        getenv-append,
        getenv-number name "RETENTION_KEEP_LAST_HOURS" keep.hours,
        getenv-number name "RETENTION_KEEP_LAST_DAYS" keep.days,
        getenv-number name "RETENTION_KEEP_LAST_WEEKS" keep.weeks,
        getenv-number name "RETENTION_KEEP_LAST_MONTHS" keep.months,
      )
      refl

getenv-policy :
    (name : String) (p : RetentionPolicy)
    → getenv name (retention_policy_to_env (some p))
      ≡ first_of (pick "RETENTION_MAX_AGE_DAYS" name (written p.max_age_days)) (
          first_of
            (pick "RETENTION_MAX_BACKUP_COUNT" name (written p.max_backup_count))
            (getenv name (keep_last_to_env p.keep_last)))
unfolding retention_policy_to_env
getenv-policy name p =
    rw
      (
        getenv-append,
        getenv-append,
        getenv-pointer name "RETENTION_MAX_AGE_DAYS" p.max_age_days,
        getenv-pointer name "RETENTION_MAX_BACKUP_COUNT" p.max_backup_count,
      )
      refl

-- The variables of `keepLast` carry it, and no other number.
record CarriesKeep (keep : Option KeepLastPolicy) (env : List EnvVar) : Type 0 where
  pub age : getenv "RETENTION_MAX_AGE_DAYS" env ≡ none
  pub count : getenv "RETENTION_MAX_BACKUP_COUNT" env ≡ none
  pub hours : getenv "RETENTION_KEEP_LAST_HOURS" env ≡ written (kept (λ k. k.hours) keep)
  pub days : getenv "RETENTION_KEEP_LAST_DAYS" env ≡ written (kept (λ k. k.days) keep)
  pub weeks : getenv "RETENTION_KEEP_LAST_WEEKS" env ≡ written (kept (λ k. k.weeks) keep)
  pub months : getenv "RETENTION_KEEP_LAST_MONTHS" env ≡ written (kept (λ k. k.months) keep)

keep_last_to_env-CarriesKeep :
    (keep : Option KeepLastPolicy) → CarriesKeep keep (keep_last_to_env keep)
unfolding keep_last_to_env
keep_last_to_env-CarriesKeep none = record {
  age = refl;
  count = refl;
  hours = refl;
  days = refl;
  weeks = refl;
  months = refl;
}
keep_last_to_env-CarriesKeep (some keep) = record {
  age = getenv-keep "RETENTION_MAX_AGE_DAYS" keep;
  count = getenv-keep "RETENTION_MAX_BACKUP_COUNT" keep;
  hours = getenv-keep "RETENTION_KEEP_LAST_HOURS" keep ∙ first_of-none _;
  days = getenv-keep "RETENTION_KEEP_LAST_DAYS" keep ∙ first_of-none _;
  weeks = getenv-keep "RETENTION_KEEP_LAST_WEEKS" keep ∙ first_of-none _;
  months = getenv-keep "RETENTION_KEEP_LAST_MONTHS" keep;
}

retention_policy_to_env-Carries :
    (policy : Option RetentionPolicy) → Carries policy (retention_policy_to_env policy)
unfolding retention_policy_to_env
retention_policy_to_env-Carries none = record {
  age = refl;
  count = refl;
  hours = refl;
  days = refl;
  weeks = refl;
  months = refl;
}
retention_policy_to_env-Carries (some p) =
    let k = keep_last_to_env-CarriesKeep p.keep_last in
    record {
      age = getenv-policy "RETENTION_MAX_AGE_DAYS" p ∙ rw k.age (first_of-none _);
      count = getenv-policy "RETENTION_MAX_BACKUP_COUNT" p ∙ rw k.count (first_of-none _);
      hours = getenv-policy "RETENTION_KEEP_LAST_HOURS" p ∙ k.hours;
      days = getenv-policy "RETENTION_KEEP_LAST_DAYS" p ∙ k.days;
      weeks = getenv-policy "RETENTION_KEEP_LAST_WEEKS" p ∙ k.weeks;
      months = getenv-policy "RETENTION_KEEP_LAST_MONTHS" p ∙ k.months;
    }

-- The backup container finds the whole retention policy in its environment: each of the six
-- variables is set to the decimal form of its number if the policy has the number (one of
-- `keepLast` counts if it is not 0), and is not set otherwise.
pub build_env_vars-Carries : (task : BackupTask) → Carries task.spec.retention (build_env_vars task)
unfolding build_env_vars
build_env_vars-Carries task =
    let c = retention_policy_to_env-Carries task.spec.retention in
    record {
      age = c.age;
      count = c.count;
      hours = c.hours;
      days = c.days;
      weeks = c.weeks;
      months = c.months;
    }
