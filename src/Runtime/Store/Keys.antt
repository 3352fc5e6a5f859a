-- ===== src/Runtime/Store/Keys.antt =====
-- action_log.lua and phase_flip.lua: what each commits, and that neither commits twice.
use mobile_final_project.Base.{
  ℕ, ◌≡◌, ◌≢◌, refl, sym, ap, ◌∙◌, String, Bool, true, false, Option, none, some, List, [], ◌∷◌,
  ◌==◌, some_eq, subst, ==_iff, Bool-cases, ◌⊎◌, inl, inr, str_eq, eq_iff, arith, if◌then◌else◌,
}
use mobile_final_project.Runtime.State.{MatchPhase, same_phase, MatchRuntimeState}
use mobile_final_project.Runtime.Effects.{StoredShop}
use mobile_final_project.Runtime.Store.{
  lookup, insert, MatchStore, has_id, is_logged, RuntimeField, write_field, Recorded, recorded,
  duplicate, action_log, commit_action, log_action, phase_flip, flip_runtime, or_round, ids_of,
}

pub true_ne_false : true ≡ false → ⊥
true_ne_false h = cc

pub str_eq_refl : (k : String) → str_eq k k ≡ true
str_eq_refl k = (eq_iff k k).1 refl

pub lookup-insert_self {ℓ} :
    {V : Type ℓ} (k : String) (v : V) (m : List (String × V)) → lookup k (insert k v m) ≡ some v
lookup-insert_self k v [] = rw (str_eq_refl k) refl
lookup-insert_self k v ((j, w) ∷ m) = elim (Bool-cases (str_eq j k)) [
  | inl e ↦ rw e (rw (str_eq_refl k) refl)
  | inr e ↦ rw e (rw e (lookup-insert_self k v m))
]

pub lookup-insert_ne {ℓ} :
    {V : Type ℓ} (k j : String) (v : V) (m : List (String × V))
    → str_eq k j ≡ false
    → lookup j (insert k v m) ≡ lookup j m
lookup-insert_ne k j v [] h = rw h refl
lookup-insert_ne k j v ((i, w) ∷ m) h = elim (Bool-cases (str_eq i k)) [
  | inl e ↦
      let d : str_eq i j ≡ false = ap (λ (x : String). str_eq x j) ((eq_iff i k).0 e) ∙ h in
      rw e (rw h (rw d refl))
  | inr e ↦ elim (Bool-cases (str_eq i j)) [
    | inl d ↦ rw e (rw d refl)
    | inr d ↦ rw e (rw d (lookup-insert_ne k j v m h))
  ]
]

pub same_phase→eq : (a b : MatchPhase) → same_phase a b ≡ true → a ≡ b
same_phase→eq a b h = ground arith

pub same_phase_refl : (a : MatchPhase) → same_phase a a ≡ true
same_phase_refl a = ground arith

-- What a commit by `action_log` says of the store before and after it.
abbrev pub IsCommit :
    String → String → RuntimeField → MatchPhase → ℕ → MatchStore → MatchStore → Type 0
IsCommit user id field phase round s s' =
    (is_logged s user id ≡ false)
    × (is_logged s' user id ≡ true)
    × ((r : MatchRuntimeState) × (s.runtime ≡ some r)
        × (r.phase ≡ phase)
        × (r.round ≡ round)
        × (s'.runtime ≡ some (write_field field r)))

log_action-is_logged :
    (s : MatchStore) (user id : String)
    → has_id id (ids_of (lookup user (log_action s user id))) ≡ true
log_action-is_logged s user id =
    rw (lookup-insert_self user (id ∷ ids_of (lookup user s.logs)) s.logs)
      (rw (str_eq_refl id) refl)

commit_action-cases :
    (user id : String) (field : RuntimeField) (shop : Option StoredShop) (phase : MatchPhase)
    (round : ℕ) (s : MatchStore) (o : Option MatchRuntimeState)
    → is_logged s user id ≡ false
    → s.runtime ≡ o
    → let (out, s') = commit_action user id field shop phase round s o in
      ((out ≢ recorded) × (s' ≡ s)) ⊎ ((out ≡ recorded) × IsCommit user id field phase round s s')
unfolding commit_action is_logged
commit_action-cases user id field shop phase round s none l e = inl ((λ x. cc), refl)
commit_action-cases user id field shop phase round s (some r) l e =
    elim (Bool-cases (r.round == round)) [
      | inr a ↦ rw a (inl ((λ x. cc), refl))
      | inl a ↦ elim (Bool-cases (same_phase r.phase phase)) [
        | inr b ↦ rw (a, b) (inl ((λ x. cc), refl))
        | inl b ↦
            rw (a, b)
              (inr (
                refl,
                (
                  l,
                  log_action-is_logged s user id,
                  (r, e, same_phase→eq _ _ b, (==_iff r.round round).0 a, refl),
                ),
              ))
      ]
    ]

abbrev pub LogCases :
    String → String → RuntimeField → MatchPhase → ℕ → MatchStore → Recorded × MatchStore → Type 0
LogCases user id field phase round s (out, s') =
    ((out ≢ recorded) × (s' ≡ s)) ⊎ ((out ≡ recorded) × IsCommit user id field phase round s s')

pub action_log-cases :
    (user id : String) (field : RuntimeField) (shop : Option StoredShop) (phase : MatchPhase)
    (round : ℕ) (s : MatchStore)
    → LogCases user id field phase round s (action_log user id field shop phase round s)
unfolding action_log
action_log-cases user id field shop phase round s =
    let commit = commit_action user id field shop phase round s s.runtime in
    let by_test = λ (b : Bool). if b then (duplicate, s) else commit in
    elim (Bool-cases (is_logged s user id)) [
      | inl l ↦
          subst (λ (b : Bool). LogCases user id field phase round s (by_test b)) (sym l)
            (inl ((λ x. cc), refl))
      | inr l ↦
          subst (λ (b : Bool). LogCases user id field phase round s (by_test b)) (sym l)
            (commit_action-cases user id field shop phase round s s.runtime l refl)
    ]

-- What a flip that succeeds says of the store before and after it.
abbrev pub IsFlip : MatchPhase → MatchPhase → ℕ → Option ℕ → MatchStore → MatchStore → Type 0
IsFlip expected new round next s s' =
    (r : MatchRuntimeState) × (s.runtime ≡ some r)
    × (r.phase ≡ expected)
    × (r.round ≡ round)
    × (s' ≡ record s { runtime = some (record r { phase = new; round = or_round next r.round }) })

flip_runtime-cases :
    (expected new : MatchPhase) (round : ℕ) (next : Option ℕ) (s : MatchStore)
    (o : Option MatchRuntimeState)
    → s.runtime ≡ o
    → let (b, s') = flip_runtime expected new round next s o in
      ((b ≡ false) × (s' ≡ s)) ⊎ ((b ≡ true) × IsFlip expected new round next s s')
flip_runtime-cases expected new round next s none e = inl (refl, refl)
flip_runtime-cases expected new round next s (some r) e =
    elim (Bool-cases (same_phase r.phase expected)) [
      | inr a ↦ rw a (inl (refl, refl))
      | inl a ↦ elim (Bool-cases (r.round == round)) [
        | inr b ↦ rw (a, b) (inl (refl, refl))
        | inl b ↦
            rw (a, b) (inr (refl, (r, e, same_phase→eq _ _ a, (==_iff r.round round).0 b, refl)))
      ]
    ]

pub phase_flip-cases :
    (expected new : MatchPhase) (round : ℕ) (next : Option ℕ) (s : MatchStore)
    → let (b, s') = phase_flip expected new round next s in
      ((b ≡ false) × (s' ≡ s)) ⊎ ((b ≡ true) × IsFlip expected new round next s s')
unfolding phase_flip
phase_flip-cases expected new round next s =
    flip_runtime-cases expected new round next s s.runtime refl

IsFlip-of_true :
    (expected new : MatchPhase) (round : ℕ) (next : Option ℕ) (s s' : MatchStore)
    → phase_flip expected new round next s ≡ (true, s')
    → IsFlip expected new round next s s'
IsFlip-of_true expected new round next s s' k = elim (phase_flip-cases expected new round next s) [
  | inl (b, e) ↦ absurd (true_ne_false (sym (ap (λ (x : Bool × MatchStore). x.0) k) ∙ b))
  | inr (b, f) ↦ subst (IsFlip expected new round next s) (ap (λ (x : Bool × MatchStore). x.1) k) f
]

flip_leaves :
    (expected new new' : MatchPhase) (round : ℕ) (next next' : Option ℕ) (s s' s'' : MatchStore)
    → IsFlip expected new round next s s'
    → IsFlip expected new' round next' s' s''
    → expected ≡ new
flip_leaves expected new new' round next next' s s' s'' (r, e, p, n, w) (r', e', p', n', w') =
    sym p'
    ∙ ap (λ (x : MatchRuntimeState). x.phase)
        (some_eq (sym e' ∙ ap (λ (x : MatchStore). x.runtime) w))

-- A phase flips once: a flip of the same phase and round that comes after one that succeeded
-- finds another phase and changes nothing.
pub phase_flip_once :
    (expected new new' : MatchPhase) (round : ℕ) (next next' : Option ℕ) (s s' : MatchStore)
    → expected ≢ new
    → phase_flip expected new round next s ≡ (true, s')
    → phase_flip expected new' round next' s' ≡ (false, s')
phase_flip_once expected new new' round next next' s s' h k =
    let flips = IsFlip-of_true expected new round next s s' k in
    elim (phase_flip-cases expected new' round next' s') [
      | inl (b, e) ↦ cc
      | inr (b, again) ↦
          absurd (h (flip_leaves expected new new' round next next' s s' _ flips again))
    ]
