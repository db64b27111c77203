-- ===== src/Text/Terminal/Line.antt =====
-- The line that `GUITerminal::read` (include/gui/terminal.h) returns.
use Prim.Native.Nat.{min}
use shipwreck.Base.{
  ℕ, suc, ◌+◌, ◌-◌, ◌≤◌, ◌<◌, ◌≡◌, ◌≢◌, refl, sym, ap, ◌∙◌, subst, Bool-cases, true, false, inl,
  inr, some, List, [], ◌∷◌, ◌++◌, ◌==◌, ltb, leb, if◌then◌else◌, length, update, update_self,
  update_ne, arith,
}
use shipwreck.Text.{TextBox}
use shipwreck.Text.Terminal.{
  KeyRing, Reading, max_input_buffer, delete_at, make_room, append_key, read_key, read_from,
  read_line, key_handlers, next_key,
}
use shipwreck.Text.Terminal.Ring.{Holds, key_handlers-Holds, next_key-Holds}

-- All but the last character of a line that is held backwards.
abbrev pub without_last : List ℕ → List ℕ
without_last [] = []
without_last (c ∷ cs) = cs

-- Line editing: what stands on the line, the last character first, after one more key. A line of
-- `limit` characters gets no longer, and its last one is replaced.
pub edit_key : ℕ → ℕ → List ℕ → List ℕ
edit_key limit key line =
    if key == 8
    then without_last line
    else key ∷ (if leb limit (length line) then without_last line else line)

unfoldable pub edit : ℕ → List ℕ → List ℕ → List ℕ
unfolding edit_key
edit limit [] line = line
edit limit (key ∷ keys) line = edit limit keys (edit_key limit key line)

-- The line's characters, the last one first, are at the front of the buffer.
abbrev pub Written : (ℕ → ℕ) → List ℕ → Type 0
Written buffer [] = Unit
Written buffer (c ∷ line) = (buffer (length line) ≡ c) × Written buffer line

write_behind :
    (buffer : ℕ → ℕ) (line : List ℕ) (i v : ℕ)
    → length line ≤ i
    → Written buffer line
    → Written (update buffer i v) line
write_behind buffer [] i v h w = tt
write_behind buffer (c ∷ line) i v h w = (
  update_ne buffer i v (length line) (omega arith) ∙ w.0,
  write_behind buffer line i v (omega arith) w.1,
)

-- What `read` has put in the buffer is the line.
pub record Is (line : List ℕ) (s : Reading) : Type 0 where
  pub len : s.len ≡ length line
  pub buffer : Written s.buffer line

delete_at-Is :
    (line : List ℕ) (n : ℕ) (s : Reading)
    → Is line s
    → n ≡ s.len
    → Is (without_last line) (delete_at n s)
delete_at-Is [] n s h e = record { len = omega (arith, h.len); buffer = tt }
delete_at-Is (c ∷ line) n s h e = record {
  len = omega (arith, h.len);
  buffer = write_behind s.buffer line (n - 1) b' ' (omega (arith, h.len)) h.buffer.1;
}

append_key-Is : (c : ℕ) (line : List ℕ) (s : Reading) → Is line s → Is (c ∷ line) (append_key c s)
append_key-Is c line s h = record {
  len = omega (arith, h.len);
  buffer = (
    ap (update s.buffer s.len c) (sym h.len) ∙ update_self s.buffer s.len c,
    write_behind s.buffer line s.len c (omega (arith, h.len)) h.buffer,
  );
}

-- The characters that fit before the line feed.
abbrev pub line_limit : ℕ → ℕ
line_limit max = min (max - 1) (max_input_buffer - 1)

make_room-Is :
    (limit : ℕ) (line : List ℕ) (s : Reading)
    → Is line s
    → length line ≤ limit
    → Is (if leb limit (length line) then without_last line else line) (make_room limit s)
unfolding make_room
make_room-Is limit line s h le = elim (Bool-cases (leb limit (length line))) [
  | inl e ↦
      let full : leb limit s.len ≡ true = ap (leb limit) h.len ∙ e in
      rw (full, e) (delete_at-Is line limit s h (ground (arith, h.len, e)))
  | inr e ↦ let room : leb limit s.len ≡ false = ap (leb limit) h.len ∙ e in rw (room, e) h
]

-- What a line is without its last character, if it has as many as `limit`.
abbrev shortened : ℕ → List ℕ → List ℕ
shortened limit line = if leb limit (length line) then without_last line else line

shortened_twice :
    (max : ℕ) (line : List ℕ)
    → 2 ≤ max
    → length line ≤ line_limit max
    → shortened 63 (shortened (max - 1) line) ≡ shortened (line_limit max) line
shortened_twice max [] h le = ground arith
shortened_twice max (c ∷ line) h le = ground arith

length-shortened : (limit : ℕ) (line : List ℕ) → length (shortened limit line) ≤ length line
length-shortened limit [] = ground arith
length-shortened limit (c ∷ line) = ground arith

read_key-Is :
    (max c : ℕ) (line : List ℕ) (s : Reading)
    → 2 ≤ max
    → c ≢ 10
    → Is line s
    → length line ≤ line_limit max
    → Is (edit_key (line_limit max) c line) (read_key max c s)
unfolding read_key edit_key
read_key-Is max c line s h2 nl h le = elim (Bool-cases (c == 8)) [
  | inl e ↦ rw e (erased line h)
  | inr e ↦
      let feed : (c == 10) ≡ false = ground (arith, nl) in
      rw (e, feed)
        (append_key-Is c (shortened (line_limit max) line) _ (
          subst (λ l. Is l (make_room 63 (make_room (max - 1) s))) (shortened_twice max line h2 le)
            (make_room-Is 63 (shortened (max - 1) line) (make_room (max - 1) s)
              (make_room-Is (max - 1) line s h (omega arith))
              (omega (arith, length-shortened (max - 1) line)))))
]
  where
    erased :
        (line : List ℕ)
        → Is line s
        → Is (without_last line) (if ltb 0 s.len then delete_at s.len s else s)
    erased [] h = let none_left : ltb 0 s.len ≡ false = ground (arith, h.len) in rw none_left h
    erased (d ∷ line) h =
        let some_left : ltb 0 s.len ≡ true = ground (arith, h.len) in
        rw some_left (delete_at-Is (d ∷ line) s.len s h refl)

read_key_feed :
    (max : ℕ) (line : List ℕ) (s : Reading) → Is line s → Is (10 ∷ line) (read_key max 10 s)
unfolding read_key
read_key_feed max line s h = append_key-Is 10 line s h

length-edit_key :
    (limit c : ℕ) (line : List ℕ)
    → 0 < limit
    → length line ≤ limit
    → length (edit_key limit c line) ≤ limit
unfolding edit_key
length-edit_key limit c [] h le = ground arith
length-edit_key limit c (d ∷ line) h le = ground arith

-- The keys `keys` come one after the other, from a queue `waiting` and `arrivals`, the round's being
-- its number from `round` on: in each round one is there, and no more than the ring holds. Behind
-- them `rest` is waiting.
abbrev pub Come : (ℕ → List ℕ) → ℕ → List ℕ → List ℕ → List ℕ → Type 0
Come arrivals round waiting [] rest = waiting ≡ rest
Come arrivals round waiting (key ∷ keys) rest =
    (length (waiting ++ arrivals round) ≤ max_input_buffer)
    × ((behind : List ℕ) × (waiting ++ arrivals round ≡ key ∷ behind)
        × Come arrivals (round + 1) behind keys rest)

-- The keys before a line feed.
abbrev pub NoFeed : List ℕ → Type 0
NoFeed [] = Unit
NoFeed (key ∷ keys) = (key ≢ 10) × NoFeed keys

-- How `read` ends.
abbrev pub Ends : ℕ → (ℕ → List ℕ) → ℕ → ℕ → KeyRing → Reading → List ℕ → List ℕ → Type 0
Ends rounds arrivals round max k s line rest =
    (k' : KeyRing) × ((s' : Reading) × (read_from rounds arrivals round max k s ≡ some (k', s'))
      × Is (10 ∷ line) s'
      × Holds k' rest)

-- A round that takes the key `c`.
takes :
    (left : ℕ) (arrivals : ℕ → List ℕ) (round max c : ℕ) (k k' : KeyRing) (s : Reading)
    → next_key (key_handlers (arrivals round) k) ≡ some (c, k')
    → read_from (suc left) arrivals round max k s ≡ (
        if c == 10
        then some (k', read_key max c s)
        else read_from left arrivals (round + 1) max k' (read_key max c s))
unfolding read_from
takes left arrivals round max c k k' s e = rw (e, read_from) refl

-- A key is waiting in a round.
here :
    (arrivals : ℕ → List ℕ) (round c : ℕ) (waiting behind : List ℕ) (k : KeyRing)
    → Holds k waiting
    → length (waiting ++ arrivals round) ≤ max_input_buffer
    → waiting ++ arrivals round ≡ c ∷ behind
    → (k' : KeyRing) × (next_key (key_handlers (arrivals round) k) ≡ some (c, k')) × Holds k' behind
here arrivals round c waiting behind k h fits e =
    next_key-Holds (key_handlers (arrivals round) k) c behind (
      subst (Holds (key_handlers (arrivals round) k)) e
        (key_handlers-Holds (arrivals round) k waiting h fits))

read_from_lem :
    (keys : List ℕ) (arrivals : ℕ → List ℕ) (round max : ℕ) (waiting rest line : List ℕ)
    (k : KeyRing) (s : Reading)
    → 2 ≤ max
    → NoFeed keys
    → Come arrivals round waiting (keys ++ 10 ∷ []) rest
    → Holds k waiting
    → Is line s
    → length line ≤ line_limit max
    → Ends (suc (length keys)) arrivals round max k s (edit (line_limit max) keys line) rest
unfolding edit
read_from_lem [] arrivals round max waiting rest line k s h2 nf come h is le =
    let (behind, e, gone) = come.1 in
    let (k', taken, h') = here arrivals round 10 waiting behind k h come.0 e in
    (
      k',
      (
        read_key max 10 s,
        takes 0 arrivals round max 10 k k' s taken,
        read_key_feed max line s is,
        subst (Holds k') gone h',
      ),
    )
read_from_lem (key ∷ keys) arrivals round max waiting rest line k s h2 nf come h is le =
    let (behind, e, come') = come.1 in
    let (k', taken, h') = here arrivals round key waiting behind k h come.0 e in
    let s' = read_key max key s in
    let (k'', (s'', ended, is'', h'')) =
      read_from_lem keys arrivals (round + 1) max behind rest (edit_key (line_limit max) key line)
        k' s' h2 nf.1 come' h' (read_key-Is max key line s h2 nf.0 is le)
        (length-edit_key (line_limit max) key line (omega arith) le) in
    let not_feed : (key == 10) ≡ false = ground (arith, nf.0) in
    (
      k'',
      (
        s'',
        takes (suc (length keys)) arrivals round max key k k' s taken ∙ rw not_feed ended,
        is'',
        h'',
      ),
    )

-- Where the ring holds `waiting`, and the keys `keys` and then a line feed come, with never more than
-- 64 keys at once and one there in each round: `read` with room for `max` characters, at least 2,
-- ends in the round that takes the line feed, and leaves in the buffer the line that the keys edit
-- and the line feed, and their number. What came behind the line feed is still in the ring.
pub read_line-edit :
    (keys : List ℕ) (arrivals : ℕ → List ℕ) (max : ℕ) (waiting rest : List ℕ) (k : KeyRing)
    (box : TextBox) (buffer : ℕ → ℕ)
    → 2 ≤ max
    → NoFeed keys
    → Come arrivals 0 waiting (keys ++ 10 ∷ []) rest
    → Holds k waiting
    → (k' : KeyRing) × ((s : Reading) × (read_line (suc (length keys)) arrivals max k box buffer
          ≡ some (k', s))
        × Is (10 ∷ edit (line_limit max) keys []) s
        × Holds k' rest)
unfolding read_line
read_line-edit keys arrivals max waiting rest k box buffer h2 nf come h =
    read_from_lem keys arrivals 0 max waiting rest [] k
      (record { box = box; buffer = buffer; len = 0 }) h2 nf come h
      (record { len = refl; buffer = tt }) (omega arith)
