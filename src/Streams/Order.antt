-- ===== src/Streams/Order.antt =====
-- backend/v2/task_streams.py: what a subscriber with room receives, and in which order.
use agent_craft.Prelude.{
  ℕ, ◌+◌, ◌≤◌, ◌≡◌, refl, sym, ap, ◌∙◌, true, false, not, ◌==◌, none, some, List, [], ◌∷◌, ◌++◌,
  ltb, length, select, map, All, arith, Bool-cases, inl, inr, ==-refl,
}
use mathlib.Core.List.{append-nil}
use agent_craft.Frames.{Frame, frame_sequence}
use agent_craft.Streams.{
  Subscription, Registry, publish, publish_frames, deliver, is_old, queue_max, set_subs,
}

-- The frames past a subscription's watermark.
abbrev pub new_frames : ℕ → List Frame → List Frame
new_frames after frames = select (λ f. not (is_old (frame_sequence f) after)) frames

abbrev pub received : List Frame → Subscription → Subscription
received frames s = record s { queue = s.queue ++ new_frames s.after frames }

abbrev pub HasRoom : List Frame → Subscription → Type 0
HasRoom frames s = length s.queue + length frames ≤ queue_max

length-snoc : (fs : List Frame) (f : Frame) → length (fs ++ f ∷ []) ≡ length fs + 1
length-snoc [] f = refl
length-snoc (x ∷ fs) f = omega (arith, length-snoc fs f)

append_assoc : (xs : List Frame) (f : Frame) (ys : List Frame) → (xs ++ f ∷ []) ++ ys ≡ xs ++ f ∷ ys
append_assoc [] f ys = refl
append_assoc (x ∷ xs) f ys = ap (λ l. x ∷ l) (append_assoc xs f ys)

-- One delivery, and the rest behind it.
received-deliver :
    (f : Frame) (frames : List Frame) (s : Subscription)
    → HasRoom (f ∷ frames) s
    → (received frames (deliver f s) ≡ received (f ∷ frames) s) × HasRoom frames (deliver f s)
received-deliver f frames s h = elim (Bool-cases (is_old (frame_sequence f) s.after)) [
  | inl e ↦ rw e (refl, omega (arith, h))
  | inr e ↦ rw e (
      let room : ltb (length s.queue) queue_max ≡ true = ground (arith, h) in
      rw room (
        ap (λ q. record s { queue = q }) (append_assoc s.queue f (new_frames s.after frames)),
        omega (arith, h, length-snoc s.queue f),
      ))
]

received-map :
    (f : Frame) (frames : List Frame) (subs : List Subscription)
    → All (HasRoom (f ∷ frames)) subs
    → (map (received frames) (map (deliver f) subs) ≡ map (received (f ∷ frames)) subs)
      × All (HasRoom frames) (map (deliver f) subs)
received-map f frames [] h = (refl, tt)
received-map f frames (s ∷ subs) h =
    let one = received-deliver f frames s h.0 in
    let rest = received-map f frames subs h.1 in (cc (one.0, rest.0), (one.1, rest.1))

publish_at :
    (t : ℕ) (f : Frame) (reg : Registry) (subs : List Subscription)
    → reg t ≡ some subs
    → publish t f reg ≡ set_subs reg t (some (map (deliver f) subs))
unfolding publish
publish_at t f reg subs e =
    ap
      (λ o. elim o as (λ _. Registry) [
        | none ↦ reg
        | some x ↦ set_subs reg t (some (map (deliver f) x))
      ])
      e

no_frames : (subs : List Subscription) → map (received []) subs ≡ subs
no_frames [] = refl
no_frames (s ∷ subs) = cc (ap (λ q. record s { queue = q }) (append-nil s.queue), no_frames subs)

-- Where every subscriber of a task has room for the frames, publishing them appends to each queue the
-- frames past its watermark, all of them and in order, and leaves the other tasks' subscribers alone.
pub publish_frames_lem :
    (t : ℕ) (frames : List Frame) (reg : Registry) (subs : List Subscription)
    → reg t ≡ some subs
    → All (HasRoom frames) subs
    → (publish_frames t frames reg t ≡ some (map (received frames) subs))
      × ((k : ℕ) → (t == k) ≡ false → publish_frames t frames reg k ≡ reg k)
unfolding publish_frames
publish_frames_lem t [] reg subs e h = (e ∙ ap some (sym (no_frames subs)), λ k q. refl)
publish_frames_lem t (f ∷ frames) reg subs e h =
    let here = received-map f frames subs h in
    let reg' = set_subs reg t (some (map (deliver f) subs)) in
    let at_t : reg' t ≡ some (map (deliver f) subs) = ground (arith, ==-refl t) in
    let rest = publish_frames_lem t frames reg' (map (deliver f) subs) at_t here.1 in
    (
      ap (λ r. publish_frames t frames r t) (publish_at t f reg subs e) ∙ rest.0 ∙ ap some here.0,
      λ k q.
          ap (λ r. publish_frames t frames r k) (publish_at t f reg subs e)
          ∙ rest.1 k q
          ∙ ground arith,
    )
