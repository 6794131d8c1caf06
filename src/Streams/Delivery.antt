-- ===== src/Streams/Delivery.antt =====
-- What a subscriber of backend/v2/task_streams.py receives.
use agent_craft.Prelude.{
  ℕ, ◌+◌, ◌≤◌, ◌≡◌, refl, sym, subst, false, not, ◌==◌, Option, none, some, List, [], ◌∷◌, ◌++◌,
  ltb, length, select, map, All, All-append, arith, Bool-cases, inl, inr,
}
use agent_craft.Frames.{Frame, frame_sequence}
use agent_craft.Streams.{
  Subscription, Registry, register, unsubscribe, publish, deliver, is_old, queue_max, subscribers,
  set_subs, or_pop, take_frame, drop_first, without_first,
}

-- A queue holds at most `queue_max` frames, and of the numbered ones only those past the watermark.
pub record Sound (s : Subscription) : Type 0 where
  pub bounded : length s.queue ≤ queue_max
  pub fresh : All (λ f. is_old (frame_sequence f) s.after ≡ false) s.queue

abbrev pub AllSound : Registry → Type 0
AllSound reg = (t : ℕ) → All Sound (subscribers (reg t))

length-snoc : (fs : List Frame) (f : Frame) → length (fs ++ f ∷ []) ≡ length fs + 1
length-snoc [] f = refl
length-snoc (x ∷ fs) f = omega (arith, length-snoc fs f)

deliver-Sound : (f : Frame) (s : Subscription) → Sound s → Sound (deliver f s)
deliver-Sound f s h = elim (Bool-cases (is_old (frame_sequence f) s.after)) [
  | inl e ↦ rw e h
  | inr e ↦ rw e (elim (Bool-cases (ltb (length s.queue) queue_max)) [
    | inr q ↦ rw q h
    | inl q ↦ rw q (record {
      bounded = ground (arith, length-snoc s.queue f, q);
      fresh =
          All-append (λ f. is_old (frame_sequence f) s.after ≡ false) s.queue (f ∷ []) h.fresh
            (e, tt);
    })
  ])
]

delivered :
    (f : Frame) (subs : List Subscription) → All Sound subs → All Sound (map (deliver f) subs)
delivered f [] h = tt
delivered f (s ∷ subs) h = (deliver-Sound f s h.0, delivered f subs h.1)

kept :
    (q : ℕ) (subs : List Subscription)
    → All Sound subs
    → All Sound (select (λ s. not (s.queue_id == q)) subs)
kept q [] h = tt
kept q (s ∷ subs) h = elim (Bool-cases (s.queue_id == q)) [
  | inl e ↦ rw e (kept q subs h.1)
  | inr e ↦ rw e (h.0, kept q subs h.1)
]

popped : (subs : List Subscription) → subscribers (or_pop subs) ≡ subs
popped [] = refl
popped (s ∷ subs) = refl

set-Sound :
    (reg : Registry) (t : ℕ) (v : Option (List Subscription))
    → AllSound reg
    → All Sound (subscribers v)
    → AllSound (set_subs reg t v)
set-Sound reg t v h hv k = elim (Bool-cases (t == k)) [ inl e ↦ rw e hv | inr e ↦ rw e (h k) ]

publish-Sound : (t : ℕ) (f : Frame) (reg : Registry) → AllSound reg → AllSound (publish t f reg)
unfolding publish
publish-Sound t f reg h = go (reg t) (h t)
  where
    go :
        (o : Option (List Subscription))
        → All Sound (subscribers o)
        → AllSound
            (elim o [ none ↦ reg | some subs ↦ set_subs reg t (some (map (deliver f) subs)) ])
    go none q = h
    go (some subs) q = set-Sound reg t _ h (delivered f subs q)

unsubscribe-Sound : (t q : ℕ) (reg : Registry) → AllSound reg → AllSound (unsubscribe t q reg)
unfolding unsubscribe
unsubscribe-Sound t q reg h = go (reg t) (h t)
  where
    go :
        (o : Option (List Subscription))
        → All Sound (subscribers o)
        → AllSound (elim o [
          | none ↦ reg
          | some subs ↦ set_subs reg t (or_pop (select (λ s. not (s.queue_id == q)) subs))
        ])
    go none x = h
    go (some subs) x = set-Sound reg t _ h (
        subst (All Sound) (sym (popped (select (λ s. not (s.queue_id == q)) subs))) (kept q subs x))

shorter-Sound : (s : Subscription) → Sound s → Sound (record s { queue = without_first s.queue })
shorter-Sound s h = record { bounded = fewer s.queue h.bounded; fresh = rest s.queue h.fresh }
  where
    fewer : (fs : List Frame) → length fs ≤ queue_max → length (without_first fs) ≤ queue_max
    fewer [] k = k
    fewer (f ∷ fs) k = omega (arith, k)

    rest :
        (fs : List Frame)
        → All (λ f. is_old (frame_sequence f) s.after ≡ false) fs
        → All (λ f. is_old (frame_sequence f) s.after ≡ false) (without_first fs)
    rest [] k = k
    rest (f ∷ fs) k = k.1

taken : (q : ℕ) (subs : List Subscription) → All Sound subs → All Sound (map (drop_first q) subs)
taken q [] h = tt
taken q (s ∷ subs) h = elim (Bool-cases (s.queue_id == q)) [
  | inl e ↦ rw e (shorter-Sound s h.0, taken q subs h.1)
  | inr e ↦ rw e (h.0, taken q subs h.1)
]

take-Sound : (t q : ℕ) (reg : Registry) → AllSound reg → AllSound (take_frame t q reg)
unfolding take_frame
take-Sound t q reg h = go (reg t) (h t)
  where
    go :
        (o : Option (List Subscription))
        → All Sound (subscribers o)
        → AllSound
            (elim o [ none ↦ reg | some subs ↦ set_subs reg t (some (map (drop_first q) subs)) ])
    go none k = h
    go (some subs) k = set-Sound reg t _ h (taken q subs k)

-- The calls on a registry, and on the queues of its subscribers.
pub data Call : Type 0 where
  register_call : (task_id queue_id after : ℕ) → Call
  unsubscribe_call : (task_id queue_id : ℕ) → Call
  publish_call : (task_id : ℕ) → Frame → Call
  take_call : (task_id queue_id : ℕ) → Call

unfoldable pub call : Call → Registry → Registry
call (register_call t q a) reg = register t q a reg
call (unsubscribe_call t q) reg = unsubscribe t q reg
call (publish_call t f) reg = publish t f reg
call (take_call t q) reg = take_frame t q reg

unfoldable pub calls : List Call → Registry → Registry
calls [] reg = reg
calls (c ∷ cs) reg = calls cs (call c reg)

call-Sound : (c : Call) (reg : Registry) → AllSound reg → AllSound (call c reg)
unfolding call register
call-Sound (register_call t q a) reg h = set-Sound reg t _ h (
    All-append Sound (subscribers (reg t)) _ (h t)
      (record { bounded = omega arith; fresh = tt }, tt))
call-Sound (unsubscribe_call t q) reg h = unsubscribe-Sound t q reg h
call-Sound (publish_call t f) reg h = publish-Sound t f reg h
call-Sound (take_call t q) reg h = take-Sound t q reg h

-- After any sequence of registrations, cancellations, publications and frames taken by the subscribers,
-- every subscriber's queue holds at most 2000 frames, and each numbered frame in it is past the
-- subscriber's watermark.
pub calls-Sound : (cs : List Call) (reg : Registry) → AllSound reg → AllSound (calls cs reg)
unfolding calls
calls-Sound [] reg h = h
calls-Sound (c ∷ cs) reg h = calls-Sound cs (call c reg) (call-Sound c reg h)
