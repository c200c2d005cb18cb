-- ===== src/Sdk/Request/Loop/Laws.antt =====
-- The attempts of one call of the API: what they send, how often, and what they end with.
use zamapay.Prelude.{
  ℕ, zero, suc, ◌+◌, ◌≤◌, ◌≡◌, refl, ◌⊎◌, inl, inr, none, some, [], ◌∷◌, arith, Option-cases,
}
use zamapay.Sdk.Result.{Result}
use zamapay.Sdk.Request.{Host, Event, sent, slept, History, HttpRequest, Response}
use zamapay.Js.{Number, IsWithin}
use zamapay.Sdk.Errors.{Headers}
use zamapay.Sdk.Request.Delay.{retry_delay_millis, retry_delay_IsWithin}
use zamapay.Sdk.Request.Loop.{Call, attempts, settle, retry_headers}

abbrev pub sends : History → ℕ
sends [] = 0
sends (sent _ ∷ h) = suc (sends h)
sends (slept _ ∷ h) = sends h

module _ (host : Host) (call : Call) (left attempt : ℕ) (past : History) where
  pub attempts-stop :
      retry_headers host call (host.fetch past call.request) ≡ none
      → attempts host call (suc left) attempt past
        ≡ (settle host call (host.fetch past call.request), sent call.request ∷ past)
  unfolding attempts
  attempts-stop e = rw (e, attempts)

  attempts-again :
      {h : Headers}
      → retry_headers host call (host.fetch past call.request) ≡ some h
      → attempts host call (suc left) attempt past
        ≡ attempts host call left (attempt + 1) (
            slept (retry_delay_millis host (sent call.request ∷ past) attempt h)
            ∷ sent call.request
            ∷ past)
  unfolding attempts
  attempts-again e = rw (e, attempts)

pub attempts-zero :
    (host : Host) (call : Call) (attempt : ℕ) (past : History)
    → attempts host call zero attempt past
      ≡ (settle host call (host.fetch past call.request), sent call.request ∷ past)
unfolding attempts
attempts-zero host call attempt past = refl

-- How the attempts end: the last event is a request, and the result is read from its response.
-- Either that response asks for no retry, or the retries are used up.
pub record Ends (host : Host) (call : Call) (left : ℕ) (past : History)
    (r : Result Response × History) : Type 0 where
  pub last : History
  pub events : r.1 ≡ sent call.request ∷ last
  pub result : r.0 ≡ settle host call (host.fetch last call.request)
  pub stopped :
      (retry_headers host call (host.fetch last call.request) ≡ none)
      ⊎ (sends r.1 ≡ sends past + left + 1)
  pub bounded : sends r.1 ≤ sends past + left + 1

pub attempts-Ends :
    (host : Host) (call : Call) (left attempt : ℕ) (past : History)
    → Ends host call left past (attempts host call left attempt past)
attempts-Ends host call zero attempt past = rw attempts-zero (record {
  last = past;
  events = refl;
  result = refl;
  stopped = inr (omega arith);
  bounded = omega arith;
})
attempts-Ends host call (suc left) attempt past =
    let f = host.fetch past call.request in
    elim (Option-cases (retry_headers host call f)) [
      | inl e ↦ rw (attempts-stop host call left attempt past e) (record {
        last = past;
        events = refl;
        result = refl;
        stopped = inl e;
        bounded = omega arith;
      })
      | inr (h, e) ↦
          let d = retry_delay_millis host (sent call.request ∷ past) attempt h in
          rw (attempts-again host call left attempt past e) (
            later (attempts-Ends host call left (attempt + 1) (slept d ∷ sent call.request ∷ past)))
    ]
  where
    later :
        {d : Number} {r : Result Response × History}
        → Ends host call left (slept d ∷ sent call.request ∷ past) r
        → Ends host call (suc left) past r
    later w = record {
      last = w.last;
      events = w.events;
      result = w.result;
      stopped = elim w.stopped [ inl e ↦ inl e | inr e ↦ inr (omega (arith, e)) ];
      bounded = omega (arith, w.bounded);
    }

-- The events that a call adds.
pub data Grows (P : Event → Type 0) (past : History) : History → Type 0 where
  same : Grows P past past
  more : {e : Event} {h : History} → P e → Grows P past h → Grows P past (e ∷ h)

pub Grows-map :
    {P Q : Event → Type 0} {past h : History}
    → ((e : Event) → P e → Q e)
    → Grows P past h
    → Grows Q past h
Grows-map f same = same
Grows-map f (more {e} w g) = more (f e w) (Grows-map f g)

abbrev pub IsOf : HttpRequest → Event → Type 0
IsOf r (sent r') = r' ≡ r
IsOf r (slept d) = IsWithin 60000 d

pub attempts-Grows :
    (host : Host) (call : Call) (left attempt : ℕ) (past start : History)
    → Grows (IsOf call.request) start past
    → Grows (IsOf call.request) start (attempts host call left attempt past).1
attempts-Grows host call zero attempt past start g = rw attempts-zero (more refl g)
attempts-Grows host call (suc left) attempt past start g =
    elim (Option-cases (retry_headers host call (host.fetch past call.request))) [
      | inl e ↦ rw (attempts-stop host call left attempt past e) (more refl g)
      | inr (h, e) ↦ rw (attempts-again host call left attempt past e) (
          attempts-Grows host call left (attempt + 1) _ start
            (more (retry_delay_IsWithin host _ attempt h) (more refl g)))
    ]
