-- ===== src/Service/Fanout/Drops.antt =====
-- What becomes of a subscription that `fanOut` has dropped, and of its reader.
use easyhooks.Prelude.{
  ℕ, suc, ◌≤◌, ◌<◌, ◌==◌, true, false, Option, none, some, List, [], ◌∷◌, length, ◌≡◌, refl, inl,
  inr, arith, Bool-cases, ap, sym, ◌∙◌, subst, if_rule,
}
use easyhooks.Service.Streams.{StreamEvent}
use easyhooks.Service.Fanout.{
  Fanout, fine, panicked, has, subscribe, unsubscribe, stop_reader, stop_named, fan_out, reap,
  receive,
}
use easyhooks.Service.Fanout.Subscribers.{
  Inv, unsubscribe-fine, unsubscribe-closed, left, has-delete, fine-injective,
}
use easyhooks.Service.Fanout.Offers.{IsOrder, HasOffered, fan_out-HasOffered}
use easyhooks.Service.Fanout.Reach.{
  Step, joins, leaves, offers, reaps, receives, Reach, here, next, reaped, reaped_one,
  reaped_one-Inv, reap-reaped, Reach-Inv, Step-Inv,
}

-- The id was given out, and its channel is closed.
abbrev pub IsClosed : ℕ → Fanout → Type 0
IsClosed id f = (id < f.next_sub_id) × ((f.channels id).closed ≡ true)

subscribe-IsClosed : (id : ℕ) (f : Fanout) → IsClosed id f → IsClosed id (subscribe f)
unfolding subscribe
subscribe-IsClosed id f c = ground arith

left-IsClosed : (id k : ℕ) (f : Fanout) → IsClosed id f → IsClosed id (left k f)
left-IsClosed id k f c = ground arith

stop_named-IsClosed :
    (id : ℕ) (cancel : Option ℕ) (f : Fanout) → IsClosed id f → IsClosed id (stop_named cancel f)
stop_named-IsClosed id none f c = c
stop_named-IsClosed id (some r) f c = c

stop_reader-IsClosed : (id : ℕ) (f : Fanout) → IsClosed id f → IsClosed id (stop_reader f)
unfolding stop_reader
stop_reader-IsClosed id f c =
    if_rule (IsClosed id) (length f.subs == 0) (λ _. stop_named-IsClosed id f.cancel f c) (λ _. c)

reaped-IsClosed :
    (id : ℕ) (dead : List ℕ) (f : Fanout) → IsClosed id f → IsClosed id (reaped dead f)
unfolding reaped
reaped-IsClosed id [] f c = c
reaped-IsClosed id (k ∷ dead) f c =
    reaped-IsClosed id dead (reaped_one k f)
      (if_rule (IsClosed id) (has f.subs k) (λ _. left-IsClosed id k f c) (λ _. c))

receive-IsClosed : (id k : ℕ) (f : Fanout) → IsClosed id f → IsClosed id (receive k f)
unfolding receive
receive-IsClosed id k f c = ground arith

offered-IsClosed :
    {event : StreamEvent} {f g : Fanout} {dead : List ℕ} (id : ℕ)
    → Inv f
    → HasOffered event f g dead
    → IsClosed id f
    → IsClosed id (record f { channels = g.channels })
offered-IsClosed id v o c = ground (arith, v.opened id, o.delivers.others id)

-- A closed channel stays closed, whatever happens.
Step-IsClosed : {f g : Fanout} (id : ℕ) → Step f g → Inv f → IsClosed id f → IsClosed id g
Step-IsClosed {f} id joins v c = subscribe-IsClosed id f c
Step-IsClosed {f} {g} id (leaves k e) v c =
    subst (IsClosed id) (sym (unsubscribe-fine k f g e).1)
      (stop_reader-IsClosed id (left k f) (left-IsClosed id k f c))
Step-IsClosed {f} {g} id (offers event order dead o e) v c =
    let h = fan_out-HasOffered event order f g dead v o e in
    subst (IsClosed id) (sym h.channels_alone) (offered-IsClosed id v h c)
Step-IsClosed {f} id (reaps dead e) v c =
    subst (IsClosed id) (fine-injective (sym (reap-reaped dead f v) ∙ e))
      (reaped-IsClosed id dead f c)
Step-IsClosed {f} id (receives k) v c = receive-IsClosed id k f c

Reach-IsClosed : {f g : Fanout} (id : ℕ) → Inv f → Reach f g → IsClosed id f → IsClosed id g
Reach-IsClosed id v here c = c
Reach-IsClosed id v (next r s) c = Step-IsClosed id s (Reach-Inv v r) (Reach-IsClosed id v r c)

left-closes :
    (id k : ℕ) (f : Fanout)
    → Inv f
    → (k == id) ≡ true
    → has f.subs id ≡ true
    → IsClosed id (left k f)
left-closes id k f v e m = ground (arith, v.below id)

has-reaped_one :
    (id k : ℕ) (f : Fanout)
    → (k == id) ≡ false
    → has f.subs id ≡ true
    → has (reaped_one k f).subs id ≡ true
has-reaped_one id k f other m = elim (Bool-cases (has f.subs k)) [
  | inl there ↦ ground (arith, has-delete k f.subs id)
  | inr gone ↦ ground arith
]

-- Reaping closes the channel of each subscription that is listed and still there.
reaped-closes :
    (id : ℕ) (dead : List ℕ) (f : Fanout)
    → Inv f
    → has dead id ≡ true
    → has f.subs id ≡ true
    → IsClosed id (reaped dead f)
unfolding reaped
reaped-closes id [] f v d m = unfold has in cc d
reaped-closes id (k ∷ dead) f v d m = elim (Bool-cases (k == id)) [
  | inl same ↦ reaped-IsClosed id dead (reaped_one k f) (closed_now same)
  | inr other ↦
      reaped-closes id dead (reaped_one k f) (reaped_one-Inv k f v) (unfold has in ground arith)
        (has-reaped_one id k f other m)
]
  where
    there_gone : (k == id) ≡ true → has f.subs k ≡ false → ⊥
    there_gone same gone = ground arith

    closed_now : (k == id) ≡ true → IsClosed id (reaped_one k f)
    closed_now same =
        if_rule (IsClosed id) (has f.subs k) (λ _. left-closes id k f v same m)
          (λ gone. absurd (there_gone same gone))

dropped-IsClosed :
    {event : StreamEvent} {f g h : Fanout} {dead : List ℕ} (id : ℕ)
    → Inv f
    → HasOffered event f g dead
    → Inv g
    → reap dead g ≡ fine h
    → has f.subs id ≡ true
    → f.cap ≤ length (f.channels id).buffer
    → IsClosed id h
dropped-IsClosed {event} {f} {g} {h} {dead} id v o v' e m full =
    let closed =
      reaped-closes id dead g v' ((o.delivers.doomed id).1 (m, full))
        (ap (λ (x : Fanout). has x.subs id) o.channels_alone ∙ m) in
    subst (IsClosed id) (fine-injective (sym (reap-reaped dead g v') ∙ e)) closed

-- It stays closed, whatever happens later.
pub dropped-IsClosed_later :
    (event : StreamEvent) (order dead : List ℕ) (f g h k : Fanout) (id : ℕ)
    → Inv f
    → IsOrder f.subs order
    → has f.subs id ≡ true
    → f.cap ≤ length (f.channels id).buffer
    → fan_out event order f ≡ fine (g, dead)
    → reap dead g ≡ fine h
    → Reach h k
    → IsClosed id k
dropped-IsClosed_later event order dead f g h k id v o m full offering reaping later =
    let offered = offers event order dead o offering in
    let v' = Step-Inv offered v in
    let closed =
      dropped-IsClosed id v (fan_out-HasOffered event order f g dead v o offering) v' reaping m
        full in
    Reach-IsClosed id (Step-Inv (reaps dead reaping) v') later closed

-- In a fan-out with the invariant, a subscription whose channel is full when an event is offered
-- and the full subscriptions are reaped has its channel closed; the function that its holder got
-- from `Subscribe` then panics, however much later it is called.
pub dropped-unsubscribe :
    (event : StreamEvent) (order dead : List ℕ) (f g h k : Fanout) (id : ℕ)
    → Inv f
    → IsOrder f.subs order
    → has f.subs id ≡ true
    → f.cap ≤ length (f.channels id).buffer
    → fan_out event order f ≡ fine (g, dead)
    → reap dead g ≡ fine h
    → Reach h k
    → unsubscribe id k ≡ panicked
dropped-unsubscribe event order dead f g h k id v o m full offering reaping later =
    unsubscribe-closed id k
      (dropped-IsClosed_later event order dead f g h k id v o m full offering reaping later).1

reaped-reader :
    (dead : List ℕ) (f : Fanout)
    → ((reaped dead f).readers ≡ f.readers) × ((reaped dead f).cap ≡ f.cap)
unfolding reaped
reaped-reader [] f = (refl, refl)
reaped-reader (id ∷ dead) f =
    if_rule (λ (x : Fanout). ((reaped dead x).readers ≡ f.readers) × ((reaped dead x).cap ≡ f.cap))
      (has f.subs id) (λ _. reaped-reader dead (left id f)) (λ _. reaped-reader dead f)

subscribe-first : (f : Fanout) → f.subs ≡ [] → (subscribe f).readers ≡ f.next_reader ∷ f.readers
unfolding subscribe
subscribe-first f e =
    if_rule (λ (x : Fanout). x.readers ≡ f.next_reader ∷ f.readers) (suc (length f.subs) == 1)
      (λ _. refl) (λ more. absurd (no_more more))
  where
    no_more : (suc (length f.subs) == 1) ≡ false → ⊥
    no_more more = ground (arith, ap (λ (x : List ℕ). length x) e)

-- In a fan-out with the invariant, reaping that leaves no subscription cancels no reader, and the
-- next subscription starts a reader beside those that still run.
pub reap-subscribe :
    (dead : List ℕ) (f h : Fanout)
    → Inv f
    → reap dead f ≡ fine h
    → h.subs ≡ []
    → (h.readers ≡ f.readers) × ((subscribe h).readers ≡ h.next_reader ∷ f.readers)
reap-subscribe dead f h v e none_left =
    let same = fine-injective (sym (reap-reaped dead f v) ∙ e) in
    let kept = subst (λ (x : Fanout). x.readers ≡ f.readers) same (reaped-reader dead f).0 in
    (kept, one_more kept)
  where
    one_more : h.readers ≡ f.readers → (subscribe h).readers ≡ h.next_reader ∷ f.readers
    one_more kept = rw (subscribe-first h none_left, kept) refl
