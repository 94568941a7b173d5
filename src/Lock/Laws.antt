-- ===== src/Lock/Laws.antt =====
-- Who holds a lock, and how long.
use Prim.Native.String.{◌++◌ as append}
use go_fire.Base.{
  ℕ, suc, ◌≡◌, ◌≢◌, refl, sym, ap, ◌∙◌, ◌⊎◌, inl, inr, List, [], ◌∷◌, Option, none, some, Error, ok,
  err, arith, All, Bool-cases, Option-cases, ◌==◌, ==_iff,
}
use go_fire.Lock.{
  Holder, Locks, set, take, give, acquire, release, Call, acquires, releases, call, call_all,
}

-- The session holds the lock.
abbrev pub IsHolder : ℕ → ℕ → Locks → Type 0
IsHolder session id locks = (h : Holder) × (locks id ≡ some h) × (h.session ≡ session)

-- Not a Release of the lock in its own session.
abbrev pub IsNotOwn : ℕ → ℕ → Call → Type 0
IsNotOwn session id (acquires fault session' id') = Unit
IsNotOwn session id (releases fault session' id') = (session' ≢ session) ⊎ (id' ≢ id)

set-same : (id : ℕ) (h : Option Holder) (locks : Locks) → set id h locks id ≡ h
set-same id h locks = ground arith

set-other : (id k : ℕ) (h : Option Holder) (locks : Locks) → id ≢ k → set id h locks k ≡ locks k
set-other id k h locks ne = ground arith

take-session :
    (session : ℕ) (o : Option Holder) {h : Holder} → take session o ≡ some h → h.session ≡ session
take-session session none e = ground arith
take-session session (some k) e = ground arith

pub acquire-IsHolder :
    (session id : ℕ) (locks : Locks)
    → (acquire none session id locks).1 ≡ ok tt
    → IsHolder session id (acquire none session id locks).0
unfolding acquire
acquire-IsHolder session id locks done = elim (Option-cases (take session (locks id))) [
  | inl waits ↦ absurd (let done' = rw (waits, acquire) at done in cc)
  | inr (h, got) ↦
      rw (got, acquire) (h, set-same id (some h) locks, take-session session (locks id) got)
]

take-other :
    (session session' : ℕ) (h : Holder)
    → h.session ≡ session
    → session' ≢ session
    → take session' (some h) ≡ none
take-other session session' h e ne = ground arith

give-other :
    (session session' : ℕ) (h : Holder)
    → h.session ≡ session
    → session' ≢ session
    → give session' (some h) ≡ some h
give-other session session' h e ne = ground arith

pub acquire-refused :
    (fault : Option Error) (session session' id : ℕ) (locks : Locks)
    → IsHolder session id locks
    → session' ≢ session
    → (e : Error) × (acquire fault session' id locks ≡ (locks, err e))
unfolding acquire
acquire-refused (some e) session session' id locks h ne =
    (append "failed to acquire lock: " e, refl)
acquire-refused none session session' id locks (h, e, own) ne = (
  "failed to acquire lock: pq: canceling statement due to user request",
  rw (e, take-other session session' h own ne) refl,
)

set-IsHolder :
    (session id k : ℕ) (o : Option Holder) (locks : Locks)
    → IsHolder session id locks
    → (k ≡ id → (h : Holder) × (o ≡ some h) × (h.session ≡ session))
    → IsHolder session id (set k o locks)
set-IsHolder session id k o locks (h, e, own) kept = elim (Bool-cases (id == k)) [
  | inl hit ↦ let (h', e', own') = kept (sym ((==_iff id k).0 hit)) in (h', rw hit e', own')
  | inr miss ↦ (h, rw miss e, own)
]

take-holder :
    (session' : ℕ) (h h' : Holder) → take session' (some h) ≡ some h' → h'.session ≡ h.session
take-holder session' h h' e = ground arith

pub call-IsHolder :
    (session id : ℕ) (c : Call) (locks : Locks)
    → IsNotOwn session id c
    → IsHolder session id locks
    → IsHolder session id (call c locks)
unfolding call acquire release
call-IsHolder session id (acquires (some e) session' id') locks not_own h = h
call-IsHolder session id (releases (some e) session' id') locks not_own h = h
call-IsHolder session id (acquires none session' id') locks not_own (h, e, own) =
    elim (Option-cases (take session' (locks id'))) [
      | inl waits ↦ rw (waits, acquire, call) (h, e, own)
      | inr (h', got) ↦
          rw (got, acquire, call)
            (set-IsHolder session id id' (some h') locks (h, e, own)
              (λ same. (h', refl, take-holder session' h h' (rw (same, e) at got) ∙ own)))
    ]
call-IsHolder session id (releases none session' id') locks not_own (h, e, own) =
    set-IsHolder session id id' (give session' (locks id')) locks (h, e, own)
      (λ same. elim not_own [
        | inl ne ↦ (h, rw (same, e) (give-other session session' h own ne), own)
        | inr ne ↦ absurd (ne same)
      ])

pub call_all-IsHolder :
    (session id : ℕ) (calls : List Call) (locks : Locks)
    → All (IsNotOwn session id) calls
    → IsHolder session id locks
    → IsHolder session id (call_all calls locks)
unfolding call_all
call_all-IsHolder session id [] locks h held = held
call_all-IsHolder session id (c ∷ cs) locks h held =
    call_all-IsHolder session id cs (call c locks) h.1 (call-IsHolder session id c locks h.0 held)

-- Once Acquire has taken a lock in a session, no Acquire of it in another session succeeds until
-- Release runs in the same session, whatever other calls are made in between: a Release that the pool
-- runs in another session reports no error and frees nothing.
pub acquire_exclusive :
    (session session' id : ℕ) (fault : Option Error) (locks : Locks) (calls : List Call)
    → (acquire none session id locks).1 ≡ ok tt
    → All (IsNotOwn session id) calls
    → session' ≢ session
    → (e : Error) × ((acquire fault session' id
          (call_all calls (acquire none session id locks).0)).1
        ≡ err e)
acquire_exclusive session session' id fault locks calls done h ne =
    let held =
      call_all-IsHolder session id calls (acquire none session id locks).0 h
        (acquire-IsHolder session id locks done) in
    let (e, refused) =
      acquire-refused fault session session' id (call_all calls (acquire none session id locks).0)
        held ne in
    (e, ap (λ x. x.1) refused)

give-take :
    (session : ℕ) (o : Option Holder) {h : Holder}
    → take session o ≡ some h
    → give session (some h) ≡ o
give-take session none {h} e =
    let e' : record { session = session; again = 0 } ≡ h = cc in rw (← e') (ground arith)
give-take session (some k) {h} e = elim (Bool-cases (k.session == session)) [
  | inl own ↦
      let e' : some (record k { again = suc k.again }) ≡ some h = rw own at e in
      let e'' : record k { again = suc k.again } ≡ h = cc in rw (← e'') (rw own refl)
  | inr other ↦ absurd (let e' = rw other at e in cc)
]

pub acquire-free :
    (session id : ℕ) (locks : Locks) → locks id ≡ none → (acquire none session id locks).1 ≡ ok tt
unfolding acquire
acquire-free session id locks free = rw free refl

-- In one session, Release takes back what Acquire has done, also where the session held the lock
-- before.
pub release-acquire :
    (session id k : ℕ) (locks : Locks)
    → (acquire none session id locks).1 ≡ ok tt
    → (release none session id (acquire none session id locks).0).0 k ≡ locks k
unfolding acquire release
release-acquire session id k locks done = elim (Option-cases (take session (locks id))) [
  | inl waits ↦ absurd (let done' = rw (waits, acquire) at done in cc)
  | inr (h, got) ↦
      rw (got, acquire, set-same id (some h) locks, give-take session (locks id) got)
        (elim (Bool-cases (k == id)) [
          | inl hit ↦ rw hit (ap locks (sym ((==_iff k id).0 hit)))
          | inr miss ↦ rw miss refl
        ])
]

-- Acquire fails and leaves the locks alone, or it has taken the lock.
pub acquire-cases :
    (fault : Option Error) (session id : ℕ) (locks : Locks)
    → ((e : Error) × (acquire fault session id locks ≡ (locks, err e)))
      ⊎ ((fault ≡ none) × ((acquire fault session id locks).1 ≡ ok tt))
unfolding acquire
acquire-cases (some e) session id locks = inl (append "failed to acquire lock: " e, refl)
acquire-cases none session id locks = elim (Option-cases (take session (locks id))) [
  | inl waits ↦ inl (
    "failed to acquire lock: pq: canceling statement due to user request",
    rw (waits, acquire) refl,
  )
  | inr (h, got) ↦ inr (refl, rw (got, acquire) refl)
]

pub release-acquire_paired :
    (fault fault' : Option Error) (session session' id k : ℕ) (locks : Locks)
    → fault ≡ none
    → fault' ≡ none
    → session' ≡ session
    → (acquire fault session id locks).1 ≡ ok tt
    → (release fault' session' id (acquire fault session id locks).0).0 k ≡ locks k
release-acquire_paired fault fault' session session' id k locks free free' same done =
    rw (free, free', same) (release-acquire session id k locks (rw free at done))
