-- ===== src/Records/Store.antt =====
-- Where the cluster keeps the records, and the calls of the record controller that leave one alone.
use backup_operator.Base.{
  ◌≡◌, refl, sym, ◌≢◌, ◌∙◌, String, Option, some, Outcome, ok, fail, panic, Error, wrapped, Action,
  pure, raise, crash, attempt, resume,
}
use backup_operator.Kube.{NamespacedName, Labels, key_of}
use backup_operator.Api.{BackupRecord}
use backup_operator.Client.{Client}
use backup_operator.Controller.Retention.{read_clock, wrap_error}

-- What the record controller relies on: only a status update changes a record, it changes no other
-- record, and what the server returns has the name that was asked for.
pub record RecordStore (C : Client) : Type 0 where
  pub stored : C.World → NamespacedName → Option BackupRecord
  pub now_keeps : (k : NamespacedName) (w : C.World) → stored (C.now w).1 k ≡ stored w k
  pub get_task_keeps :
      (n k : NamespacedName) (w : C.World) → stored (C.get_task n w).1 k ≡ stored w k
  pub list_jobs_keeps :
      (namespace : String) (labels : Labels) (k : NamespacedName) (w : C.World)
      → stored (C.list_jobs namespace labels w).1 k ≡ stored w k
  pub list_pods_keeps :
      (namespace : String) (labels : Labels) (k : NamespacedName) (w : C.World)
      → stored (C.list_pods namespace labels w).1 k ≡ stored w k
  pub get_record_keeps :
      (n k : NamespacedName) (w : C.World) → stored (C.get_record n w).1 k ≡ stored w k
  pub get_record_reads :
      (n : NamespacedName) (w w' : C.World) (r : BackupRecord)
      → C.get_record n w ≡ (ok r, w')
      → (stored w n ≡ some r) × (key_of r.meta ≡ n)
  pub update_elsewhere :
      (r : BackupRecord) (k : NamespacedName) (w : C.World)
      → key_of r.meta ≢ k
      → stored (C.update_record_status r w).1 k ≡ stored w k
  pub update_stores :
      (r r' : BackupRecord) (w w' : C.World)
      → C.update_record_status r w ≡ (ok r', w')
      → (stored w' (key_of r.meta) ≡ some r')
        × (key_of r'.meta ≡ key_of r.meta)
        × (r'.status.phase ≡ r.status.phase)

module _ {A : Type 0} where
  -- A value that is returned satisfies `Q`.
  abbrev pub AnswersWith : (A → Type 0) → Outcome A → Type 0
  AnswersWith Q (ok x) = Q x
  AnswersWith Q (fail e) = Unit
  AnswersWith Q (panic m) = Unit

abbrev pub Anything : {A : Type 0} → A → Type 0
Anything x = Unit

module _ {C : Client} (S : RecordStore C) (k : NamespacedName) where
  -- The call leaves the record at `k` as it is, and what it returns satisfies `Q`.
  pub record Frames {A : Type 0} (Q : A → Type 0) (a : Action C.World A) : Type 0 where
    pub keeps : (w : C.World) → S.stored (a w).1 k ≡ S.stored w k
    pub answers : (w : C.World) → AnswersWith Q (a w).0

  -- A record that is not the one at `k`.
  abbrev pub IsOther : BackupRecord → Type 0
  IsOther r = key_of r.meta ≢ k

  resume-keeps :
      {A B : Type 0} (P : A → Type 0) (Q : B → Type 0) (f : A → Action C.World B)
      (h : Error → Action C.World B) (before : Option BackupRecord) (r : Outcome A × C.World)
      → S.stored r.1 k ≡ before
      → AnswersWith P r.0
      → ((x : A) → P x → Frames Q (f x))
      → ((e : Error) → Frames Q (h e))
      → (S.stored (resume r f h).1 k ≡ before) × AnswersWith Q (resume r f h).0
  resume-keeps P Q f h before (ok x, v) same p good bad =
      ((good x p).keeps v ∙ same, (good x p).answers v)
  resume-keeps P Q f h before (fail e, v) same p good bad =
      ((bad e).keeps v ∙ same, (bad e).answers v)
  resume-keeps P Q f h before (panic m, v) same p good bad = (same, tt)

  pub attempt-Frames :
      {A B : Type 0} {P : A → Type 0} {Q : B → Type 0} {a : Action C.World A}
      {f : A → Action C.World B} {h : Error → Action C.World B}
      → Frames P a
      → ((x : A) → P x → Frames Q (f x))
      → ((e : Error) → Frames Q (h e))
      → Frames Q (attempt a f h)
  attempt-Frames {P = P} {Q = Q} {a = a} {f = f} {h = h} first good bad =
      let both = λ (w : C.World).
        resume-keeps P Q f h (S.stored w k) (a w) (first.keeps w) (first.answers w) good bad in
      record { keeps = λ w. (both w).0; answers = λ w. (both w).1 }

  pub pure-Frames : {A : Type 0} {Q : A → Type 0} (x : A) → Q x → Frames Q (pure x)
  pure-Frames x q = record { keeps = λ w. refl; answers = λ w. q }

  pub raise-Frames : {A : Type 0} {Q : A → Type 0} (e : Error) → Frames Q (raise e)
  raise-Frames e = record { keeps = λ w. refl; answers = λ w. tt }

  pub crash-Frames : {A : Type 0} {Q : A → Type 0} (m : String) → Frames Q (crash m)
  crash-Frames m = record { keeps = λ w. refl; answers = λ w. tt }

  pub bind-Frames :
      {A B : Type 0} {P : A → Type 0} {Q : B → Type 0} {a : Action C.World A}
      {f : A → Action C.World B}
      → Frames P a
      → ((x : A) → P x → Frames Q (f x))
      → Frames Q (attempt a f raise)
  bind-Frames first good = attempt-Frames first good raise-Frames

  any : {A : Type 0} (o : Outcome A) → AnswersWith Anything o
  any (ok x) = tt
  any (fail e) = tt
  any (panic m) = tt

  -- A call that keeps the record, whatever it returns.
  pub call-Frames :
      {A : Type 0} {a : Action C.World A}
      → ((w : C.World) → S.stored (a w).1 k ≡ S.stored w k)
      → Frames Anything a
  call-Frames {a = a} same = record { keeps = same; answers = λ w. any (a w).0 }

  pub read_clock-Frames : Frames Anything (read_clock C)
  read_clock-Frames = record { keeps = S.now_keeps k; answers = λ w. tt }

  pub wrap_error-Frames :
      {A : Type 0} (m : String) {a : Action C.World A}
      → Frames Anything a
      → Frames Anything (wrap_error C m a)
  wrap_error-Frames m first =
      attempt-Frames first (λ x p. pure-Frames x tt) (λ e. raise-Frames (wrapped m e))

  answer-IsOther :
      (r : BackupRecord) (o : Outcome BackupRecord × C.World) (w : C.World)
      → C.update_record_status r w ≡ o
      → IsOther r
      → AnswersWith IsOther o.0
  answer-IsOther r (ok r', v) w e other = λ same. other (sym (S.update_stores r r' w v e).1 ∙ same)
  answer-IsOther r (fail x, v) w e other = tt
  answer-IsOther r (panic x, v) w e other = tt

  -- A status update of another record.
  pub update-Frames : (r : BackupRecord) → IsOther r → Frames IsOther (C.update_record_status r)
  update-Frames r other = record {
    keeps = λ w. S.update_elsewhere r k w other;
    answers = λ w. answer-IsOther r (C.update_record_status r w) w refl other;
  }
