-- ===== src/Analysis/Queue/Keys.antt =====
-- Idempotency keys: a key belongs for good to the request that it was first used for.
use trusted_ceo_agent.Prelude.{
  String, Bool, false, Option, none, some, List, ◌≡◌, refl, arith, inl, inr, ok, raise, Bool-cases,
  Option-cases, Outcome-cases, str_eq, str_eq_iff,
}
use trusted_ceo_agent.Analysis.Cases.{SignalCase, text, is_blank, key_reused, empty_text}
use trusted_ceo_agent.Analysis.Queue.State.{
  Queue, Request, leases, advances, pauses, resumes, cancels, completes, Begun, refused, replayed,
  fresh, begin, receipt, resolve, resolve_lease,
}
use trusted_ceo_agent.Analysis.Queue.Methods.{
  Change, lease_fresh, lease, apply, advance_change, advance, pause_change, pause, resume_change,
  resume, cancel_change, cancel, complete_change, complete, call, run,
}
use trusted_ceo_agent.Analysis.Queue.Replay.{Noted, apply-Noted, lease_fresh-Noted}
use trusted_ceo_agent.Analysis.Queue.Conflicts.{IsNamed, refused-call}
use trusted_ceo_agent.Analysis.Queue.Receipts.{Has, run-Has}

module _ (digest : Request → String) (hash : SignalCase → String)
    (schema_ok : SignalCase → Bool) where
  begin-replayed :
      (key : String) (request : Request) (q : Queue) (r : Option SignalCase)
      → begin digest key request q ≡ replayed r
      → Noted digest hash schema_ok key request r q
  unfolding begin
  begin-replayed key request q r h = elim (Option-cases (receipt key q.receipts)) [
    | inl e ↦ absurd (ground arith)
    | inr ((d, o), e) ↦ ground (arith, str_eq_iff d (digest request))
  ]

  -- A method that has returned something leaves its receipt, whether it was replayed or carried out.
  resolve-Noted :
      (key : String) (request : Request) (q : Queue) (change : Change) {r : Option SignalCase}
      {t : Queue}
      → resolve (begin digest key request q) q (apply digest hash schema_ok key request change q)
        ≡ (ok r, t)
      → Noted digest hash schema_ok key request r t
  resolve-Noted key request q change {r} {t} h = go (begin digest key request q) refl h
    where
      go :
          (b : Begun)
          → begin digest key request q ≡ b
          → resolve b q (apply digest hash schema_ok key request change q) ≡ (ok r, t)
          → Noted digest hash schema_ok key request r t
      go (refused e) at k = absurd (ground arith)
      go (replayed none) at k = absurd (ground arith)
      go (replayed (some c)) at k =
          let noted = begin-replayed key request q (some c) at in ground arith
      go fresh at k = (apply-Noted digest hash schema_ok key request change q {r = r} {t = t} k).0

  resolve_lease-Noted :
      (key : String) (request : Request) (worker : String) (q : Queue) {r : Option SignalCase}
      {t : Queue}
      → resolve_lease
          (begin digest key request q)
          q
          (lease_fresh digest hash schema_ok key request worker q)
        ≡ (ok r, t)
      → Noted digest hash schema_ok key request r t
  resolve_lease-Noted key request worker q {r} {t} h = go (begin digest key request q) refl h
    where
      go :
          (b : Begun)
          → begin digest key request q ≡ b
          → resolve_lease b q (lease_fresh digest hash schema_ok key request worker q) ≡ (ok r, t)
          → Noted digest hash schema_ok key request r t
      go (refused e) at k = absurd (ground arith)
      go (replayed o) at k = let noted = begin-replayed key request q o at in ground arith
      go fresh at k = lease_fresh-Noted digest hash schema_ok key request worker q {r = r} {t = t} k

  call-Noted :
      (request : Request) (key : String) (q : Queue) {r : Option SignalCase} {t : Queue}
      → call digest hash schema_ok request key q ≡ (ok r, t)
      → Noted digest hash schema_ok key request r t
  unfolding call lease advance pause resume cancel complete
  call-Noted (leases worker expected) key q {r} {t} h = elim (Outcome-cases (text worker)) [
    | inr (x, e) ↦ absurd (ground arith)
    | inl (u, e) ↦
        resolve_lease-Noted key (leases worker expected) worker q {r = r} {t = t} (ground arith)
  ]
  call-Noted (advances id worker stage expected) key q {r} {t} h =
      resolve-Noted key _ q (advance_change id worker stage q) {r = r} {t = t} h
  call-Noted (pauses id worker status reason expected) key q {r} {t} h =
      resolve-Noted key _ q (pause_change id worker status reason q) {r = r} {t = t} h
  call-Noted (resumes id expected) key q {r} {t} h =
      resolve-Noted key _ q (resume_change id q) {r = r} {t = t} h
  call-Noted (cancels id reason expected) key q {r} {t} h =
      resolve-Noted key _ q (cancel_change id reason q) {r = r} {t = t} h
  call-Noted (completes id worker disposition finding reason expected) key q {r} {t} h =
      resolve-Noted key _ q (complete_change id worker disposition finding reason q) {r = r} {t = t}
        h

  call-IsNamed :
      (request : Request) (key : String) (q : Queue) {r : Option SignalCase} {t : Queue}
      → call digest hash schema_ok request key q ≡ (ok r, t)
      → IsNamed request
  unfolding call lease
  call-IsNamed (leases worker expected) key q {r} {t} h = elim (Bool-cases (is_blank worker)) [
    | inl e ↦ absurd (ground arith)
    | inr e ↦ e
  ]
  call-IsNamed (advances id worker stage expected) key q h = tt
  call-IsNamed (pauses id worker status reason expected) key q h = tt
  call-IsNamed (resumes id expected) key q h = tt
  call-IsNamed (cancels id reason expected) key q h = tt
  call-IsNamed (completes id worker disposition finding reason expected) key q h = tt

  -- A call with a blank key returns nothing.
  call-key :
      (request : Request) (key : String) (q : Queue) {r : Option SignalCase} {t : Queue}
      → call digest hash schema_ok request key q ≡ (ok r, t)
      → is_blank key ≡ false
  unfolding begin
  call-key request key q {r} {t} h = elim (Bool-cases (is_blank key)) [
    | inl e ↦
        let no =
          refused-call digest hash schema_ok request key q empty_text
            (call-IsNamed request key q {r = r} {t = t} h) (rw e refl) in
        absurd (ground arith)
    | inr e ↦ e
  ]

  begin_reused :
      (request : Request) (key h : String) (r : Option SignalCase) (q : Queue)
      → is_blank key ≡ false
      → Has digest hash schema_ok key (h, r) q
      → str_eq h (digest request) ≡ false
      → begin digest key request q ≡ refused key_reused
  unfolding begin
  begin_reused request key h r q given known differs = rw (given, known, differs)

  -- Once a call has returned something under a key, the key belongs to its request: whatever calls follow,
  -- a request with another digest (and, if it is a lease, with a worker's name that is not blank) is refused
  -- under the key, and changes nothing.
  pub reused_key_refused :
      (first second : Request) (key : String) (q : Queue) {r : Option SignalCase} {t : Queue}
      (calls : List (Request × String))
      → call digest hash schema_ok first key q ≡ (ok r, t)
      → str_eq (digest first) (digest second) ≡ false
      → IsNamed second
      → call digest hash schema_ok second key (run digest hash schema_ok t calls)
        ≡ (raise key_reused, run digest hash schema_ok t calls)
  reused_key_refused first second key q {r} {t} calls h differs named =
      let u = run digest hash schema_ok t calls in
      let kept =
        run-Has digest hash schema_ok key (digest first, r) t calls
          (call-Noted first key q {r = r} {t = t} h) in
      refused-call digest hash schema_ok second key u key_reused named (
        begin_reused second key (digest first) r u (call-key first key q {r = r} {t = t} h) kept
          differs)
