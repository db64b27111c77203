-- ===== src/Events/Subscribers.antt =====
-- Who hears of an event (system/events.cpp).
use shipwreck.Base.{
  ℕ, zero, suc, ◌≡◌, ◌≢◌, ◌∙◌, ◌<◌, ◌⊎◌, inl, inr, refl, sym, ap, Bool, false, ◌||◌, some, List, [],
  ◌∷◌, ◌==◌, leb, if◌then◌else◌, arith, take, Bool-cases, update_self, update_ne, ℕ_discrete,
}
use shipwreck.Base.Int.{ℤ, pos, negsuc}
use shipwreck.Gui.Frames.{Windows}
use shipwreck.Queue.{Message}
use shipwreck.Bitset.{BitAllocator, Others, pool_alloc}
use shipwreck.Events.{
  Desk, ev_max, max_procs, notify_from, notify_target, Subscriptions, sub_proc_event, with_node,
  push_head, top_hears,
}

abbrev pub among : ℕ → List ℕ → Bool
among t [] = false
among t (p ∷ ps) = t == p || among t ps

notify_from_lem : (left t : ℕ) (subs : List ℕ) → notify_from left t subs ≡ among t (take left subs)
unfolding notify_from
notify_from_lem zero t subs = refl
notify_from_lem (suc left) t [] = refl
notify_from_lem (suc left) t (p ∷ subs) = elim (Bool-cases (t == p)) [
  | inl e ↦ rw e refl
  | inr e ↦ rw e (notify_from_lem left t subs)
]

-- For an event below MAX and a top window of another process than the kernel, that process alone
-- hears of it, once, if it is among the first 16 subscribers, and else nobody does.
top_hears_lem :
    (msg : Message) (subs : ℕ → List ℕ) (d : Desk) (w : ℕ)
    → d.top ≡ some w
    → Windows.pid d.windows w ≢ 0
    → msg.msg_id < ev_max
    → top_hears msg subs d ≡ (
        let t = Windows.pid d.windows w in
        if among t (take max_procs (subs msg.msg_id)) then (t, msg) ∷ [] else [])
unfolding top_hears notify_target
top_hears_lem msg subs d w e n lt =
    let t : ℕ = Windows.pid d.windows w in
    let other : (t == 0) ≡ false = ground (arith, n) in
    let known : leb ev_max msg.msg_id ≡ false = ground (arith, lt) in
    rw (e, top_hears, notify_target, other, known)
      (ap (λ b. if b then (t, msg) ∷ [] else []) (notify_from_lem max_procs t (subs msg.msg_id)))

-- What `sub_proc_event` for process `p` leaves, by what the pool answered to the call for a node.
abbrev pub Told :
    ℤ × BitAllocator → ℕ → Message → Subscriptions → Desk → ℕ → ℤ × Subscriptions → Type 0
Told (negsuc _, pool) p msg s d t (res, s') =
    (res ≡ negsuc 0) × (s' ≡ record { event_subs = s.event_subs; sub_pool = pool })
Told (pos _, pool) p msg s d t (res, s') =
    (res ≡ pos 0)
    × (s'.sub_pool ≡ pool)
    × (top_hears msg s'.event_subs d
        ≡ (if t == p || among t (take 15 (s.event_subs msg.msg_id)) then (t, msg) ∷ [] else []))
    × ((e : ℕ) → (e ≡ msg.msg_id) ⊎ (s'.event_subs e ≡ s.event_subs e))

with_node-Told :
    (node : ℤ) (pool : BitAllocator) (p : ℕ) (msg : Message) (s : Subscriptions) (d : Desk) (w : ℕ)
    → d.top ≡ some w
    → Windows.pid d.windows w ≢ 0
    → msg.msg_id < ev_max
    → Told (node, pool) p msg s d (Windows.pid d.windows w) (with_node node pool p msg.msg_id s)
unfolding with_node
with_node-Told (negsuc _) pool p msg s d w e n lt = (refl, refl)
with_node-Told (pos _) pool p msg s d w e n lt = (
  refl,
  refl,
  top_hears_lem msg (push_head p msg.msg_id s.event_subs) d w e n lt
      ∙ ap
          (λ ps.
            let t = Windows.pid d.windows w in
            if among t (take max_procs ps) then (t, msg) ∷ [] else [])
          (update_self s.event_subs msg.msg_id (p ∷ s.event_subs msg.msg_id)),
  λ e'. elim (ℕ_discrete e' msg.msg_id) [
    | yes same ↦ inl same
    | no other ↦ inr (update_ne s.event_subs msg.msg_id _ e' (λ q. other (sym q)))
  ],
)

-- Where the pool gives no node, `sub_proc_event` for process `p` answers -1 and leaves all lists as
-- they were. Where it gives a node, the answer is 0, and by the lists that are left the process `t` of
-- the top window, if it is not the kernel, hears of such an event once if it is `p` or among the 15
-- that subscribed last before, and nobody hears of it otherwise; the lists for other events stay.
pub sub_proc_event-Told :
    (others : Others) (start p : ℕ) (msg : Message) (s : Subscriptions) (d : Desk) (w : ℕ)
    → d.top ≡ some w
    → Windows.pid d.windows w ≢ 0
    → msg.msg_id < ev_max
    → Told
        (pool_alloc others start s.sub_pool)
        p
        msg
        s
        d
        (Windows.pid d.windows w)
        (sub_proc_event others start p msg.msg_id s)
unfolding sub_proc_event
sub_proc_event-Told others start p msg s d w e n lt =
    let res : ℤ × BitAllocator = pool_alloc others start s.sub_pool in
    with_node-Told res.0 res.1 p msg s d w e n lt
