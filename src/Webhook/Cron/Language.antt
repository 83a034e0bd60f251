-- ===== src/Webhook/Cron/Language.antt =====
-- The language of a regular expression, and the matcher that decides it.
use backup_operator.Base.{
  ℕ, ◌≤◌, ◌≡◌, refl, ◌∙◌, ◌↔◌, ◌⊎◌, inl, inr, Bool, true, List, [], ◌∷◌, ◌++◌, arith, Bool-cases,
}
use mathlib.Core.List.{append-nil, append_assoc}
use backup_operator.Webhook.Cron.{Regex, literal, range, alt, seq, match, at_end}

-- The texts that an expression denotes.
abbrev pub Language : Regex → List ℕ → Type 0
Language (literal c) s = s ≡ c ∷ []
Language (range lo hi) s = (c : ℕ) × (lo ≤ c) × (c ≤ hi) × (s ≡ c ∷ [])
Language (alt p q) s = Language p s ⊎ Language q s
Language (seq p q) s = (u : List ℕ) × (v : List ℕ) × Language p u × Language q v × (s ≡ u ++ v)

-- A way to split `t` into a text of `r` and a rest that `k` accepts.
abbrev pub Splits : Regex → List ℕ → (List ℕ → Bool) → Type 0
Splits r t k = (u : List ℕ) × (v : List ℕ) × Language r u × (t ≡ u ++ v) × (k v ≡ true)

pub match_sound : (r : Regex) (t : List ℕ) (k : List ℕ → Bool) → match r t k ≡ true → Splits r t k
unfolding match
match_sound (literal c) [] k h = cc
match_sound (literal c) (d ∷ t) k h = (d ∷ [], t, ground arith, refl, ground arith)
match_sound (range lo hi) [] k h = cc
match_sound (range lo hi) (d ∷ t) k h =
    (d ∷ [], t, (d, ground arith, ground arith, refl), refl, ground arith)
match_sound (alt p q) t k h = elim (Bool-cases (match p t k)) [
  | inl e ↦ let (u, v, l, s, a) = match_sound p t k e in (u, v, inl l, s, a)
  | inr e ↦ let (u, v, l, s, a) = match_sound q t k (ground arith) in (u, v, inr l, s, a)
]
match_sound (seq p q) t k h =
    let (u, rest, l, s, a) = match_sound p t _ h in
    let (v, w, m, s', b) = match_sound q rest k a in
    (u ++ v, w, (u, v, l, m, refl), s ∙ rw (s', append_assoc), b)

pub match_complete :
    (r : Regex) (u v : List ℕ) (k : List ℕ → Bool)
    → Language r u
    → k v ≡ true
    → match r (u ++ v) k ≡ true
unfolding match
match_complete (literal c) u v k l a = rw l (ground arith)
match_complete (range lo hi) u v k (c, p, q, e) a = rw e (ground arith)
match_complete (alt p q) u v k (inl l) a = rw (match_complete p u v k l a, match)
match_complete (alt p q) u v k (inr l) a = ground (arith, match_complete q u v k l a)
match_complete (seq p q) u v k (x, y, l, m, e) a =
    rw (e, append_assoc) (match_complete p x (y ++ v) _ l (match_complete q y v k m a))

at_end-eq-true : (t : List ℕ) → at_end t ≡ true → t ≡ []
at_end-eq-true [] h = refl
at_end-eq-true (c ∷ t) h = cc

-- The matcher accepts a whole text exactly when the text is in the language of the expression.
pub match_iff : (r : Regex) (t : List ℕ) → (match r t at_end ≡ true) ↔ Language r t
match_iff r t = (sound, complete)
  where
    sound : match r t at_end ≡ true → Language r t
    sound h =
        let (u, v, l, s, a) = match_sound r t at_end h in
        let e : t ≡ u = s ∙ rw (at_end-eq-true v a, append-nil) in rw e l

    complete : Language r t → match r t at_end ≡ true
    complete l = rw append-nil at (match_complete r t [] at_end l refl)
