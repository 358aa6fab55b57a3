-- ===== src/Upstream/Scanner/Events.antt =====
-- src/upstream.rs: an event that is written line by line: the scanner takes it out of its buffer whole, and collects
-- its lines one by one.
use native.Mathlib.Nat.{suc-add}
use mathlib.Core.List.{append_assoc, append-nil}
use patchbay.Common.{
  ℕ, zero, suc, ◌+◌, ◌-◌, ◌≡◌, refl, ap, sym, ◌∙◌, true, false, Option, some, List, [], ◌∷◌, ◌++◌,
  arith, length, length-append, get_elem?, take, drop, if◌then◌else◌,
}
use patchbay.Upstream.{Bytes, Usage}
use patchbay.Upstream.Scanner.{
  UsageScanner, find_from, find_event_boundary, slice, Collected, collect_data_line, collect_from,
  collect, take_payload, process_event, settle,
}
use patchbay.Upstream.Scanner.Boundary.{find_from-append}
use patchbay.Upstream.Scanner.Chunks.{settle-some}
use patchbay.Upstream.Scanner.Lines.{
  Tail, Tail-all, Tail-of_Tail, IsLine, is_plain, term_at-plain, term_at-newline, term_at-end, wire,
  body, IsEvent, rounds, find_from-event,
}

list_ext : (xs ys : Bytes) → ((k : ℕ) → get_elem? xs k ≡ get_elem? ys k) → xs ≡ ys
list_ext [] [] h = refl
list_ext [] (y ∷ ys) h = cc (h 0)
list_ext (x ∷ xs) [] h = cc (h 0)
list_ext (x ∷ xs) (y ∷ ys) h = cc (h 0, list_ext xs ys (λ k. h (suc k)))

get_elem?-drop : (i : ℕ) (xs : Bytes) (k : ℕ) → get_elem? (drop i xs) k ≡ get_elem? xs (i + k)
get_elem?-drop zero xs k = let e : k ≡ 0 + k = omega arith in ap (get_elem? xs) e
get_elem?-drop (suc i) [] k = refl
get_elem?-drop (suc i) (x ∷ xs) k = rw suc-add (get_elem?-drop i xs k)

drop-Tail : (buf : Bytes) (i : ℕ) (cs : Bytes) → Tail buf i cs → drop i buf ≡ cs
drop-Tail buf i cs t = list_ext (drop i buf) cs (λ k. get_elem?-drop i buf k ∙ t.at k)

take-length : (xs ys : Bytes) → take (length xs) (xs ++ ys) ≡ xs
take-length [] ys = refl
take-length (x ∷ xs) ys = ap (◌∷◌ x) (take-length xs ys)

drop-length : (xs ys : Bytes) → drop (length xs) (xs ++ ys) ≡ ys
drop-length [] ys = refl
drop-length (x ∷ xs) ys = drop-length xs ys

-- The loop of `process_event` passes over a line, and nothing is collected meanwhile.
collect_from-plain :
    (fuel : ℕ) (event : Bytes) (i start c : ℕ) (cs : Bytes) (acc : Collected)
    → Tail event i (c ∷ cs)
    → is_plain c ≡ true
    → collect_from (suc fuel) event i start acc ≡ collect_from fuel event (i + 1) start acc
unfolding collect_from
collect_from-plain fuel event i start c cs acc t p =
    let here = term_at-plain event i c cs t p in ground (arith, here.0, here.1)

collect_from-line :
    (line rest : Bytes) (fuel : ℕ) (event : Bytes) (i start : ℕ) (acc : Collected)
    → Tail event i (line ++ rest)
    → IsLine line
    → (collect_from (length line + fuel) event i start acc
        ≡ collect_from fuel event (i + length line) start acc)
      × Tail event (i + length line) rest
collect_from-line [] rest fuel event i start acc t p =
    let stay : i + 0 ≡ i = omega arith in
    let same : 0 + fuel ≡ fuel = omega arith in (rw (stay, same), rw stay t)
collect_from-line (c ∷ line) rest fuel event i start acc t p =
    let next = Tail-of_Tail event i c (line ++ rest) t in
    let later = collect_from-line line rest fuel event (i + 1) start acc next (ground arith) in
    let on : i + suc (length line) ≡ i + 1 + length line = omega arith in
    let step =
      collect_from-plain (length line + fuel) event i start c (line ++ rest) acc t (ground arith) in
    (rw (suc-add, on) (step ∙ later.0), rw on later.1)

collect_from-newline :
    (fuel : ℕ) (event : Bytes) (i start : ℕ) (cs : Bytes) (acc : Collected)
    → Tail event i (b'\n' ∷ cs)
    → collect_from (suc fuel) event i start acc
      ≡ collect_from fuel event (i + 1) (i + 1) (collect_data_line (slice event start i) acc)
unfolding collect_from
collect_from-newline fuel event i start cs acc t =
    let here = term_at-newline event i cs t in ground (arith, here.0)

collect_from-end :
    (fuel : ℕ) (event : Bytes) (i start : ℕ) (acc : Collected)
    → Tail event i []
    → collect_from (suc fuel) event i start acc ≡ collect_data_line (drop start event) acc
unfolding collect_from
collect_from-end fuel event i start acc t =
    let here = term_at-end event i t in ground (arith, here.0, here.1)

abbrev pub collect_lines : List Bytes → Collected → Collected
collect_lines [] acc = acc
collect_lines (l ∷ ls) acc = collect_lines ls (collect_data_line l acc)

collect_from-event :
    (l : Bytes) (ls : List Bytes) (extra : ℕ) (event : Bytes) (i : ℕ) (acc : Collected)
    → Tail event i (body l ls)
    → IsEvent (l ∷ ls)
    → collect_from (length (body l ls) + suc extra) event i i acc ≡ collect_lines (l ∷ ls) acc
collect_from-event l [] extra event i acc t ev =
    let t' : Tail event i (l ++ []) = rw append-nil t in
    let skip = collect_from-line l [] (suc extra) event i i acc t' ev.1 in
    skip.0
    ∙ collect_from-end extra event (i + length l) i acc skip.1
    ∙ ap (λ d. collect_data_line d acc) (drop-Tail event i l t)
collect_from-event l (m ∷ ls) extra event i acc t ev =
    let rest = length (body m ls) + suc extra in
    let skip = collect_from-line l (b'\n' ∷ body m ls) (suc rest) event i i acc t ev.1 in
    let fuel : length (body l (m ∷ ls)) + suc extra ≡ length l + suc rest =
      omega (arith, length-append l (b'\n' ∷ body m ls)) in
    let here : slice event i (i + length l) ≡ l =
      (let width : i + length l - i ≡ length l = omega arith in
        rw (width, drop-Tail event i _ t) (take-length l (b'\n' ∷ body m ls))) in
    rw fuel (
      skip.0
      ∙ collect_from-newline rest event (i + length l) i (body m ls) acc skip.1
      ∙ ap
          (λ d.
            collect_from rest event (i + length l + 1) (i + length l + 1) (collect_data_line d acc))
          here
      ∙ collect_from-event m ls extra event (i + length l + 1) (collect_data_line l acc)
          (Tail-of_Tail event (i + length l) b'\n' (body m ls) skip.1) ev.2)

abbrev pub nothing : Collected
nothing = record { bytes = []; saw_data_line = false }

wire-body : (l : Bytes) (ls : List Bytes) → wire (l ∷ ls) ≡ body l ls ++ (b'\n' ∷ b'\n' ∷ [])
wire-body l [] = refl
wire-body l (m ∷ ls) = rw (wire-body m ls) (sym (append_assoc l (b'\n' ∷ body m ls) _))

rounds-body : (l : Bytes) (ls : List Bytes) → rounds l ls ≡ length (body l ls) + 1
rounds-body l [] = refl
rounds-body l (m ∷ ls) = omega (arith, rounds-body m ls, length-append l (b'\n' ∷ body m ls))

-- The first event of the buffer is the one that was written first.
find_event_boundary-wire :
    (l : Bytes) (ls : List Bytes) (rest : Bytes)
    → IsEvent (l ∷ ls)
    → find_event_boundary (wire (l ∷ ls) ++ rest)
      ≡ some (length (body l ls), length (body l ls) + 1 + 1)
unfolding find_event_boundary
find_event_boundary-wire l ls rest ev =
    let buf = wire (l ∷ ls) ++ rest in
    let found = find_from-event l ls rest buf 0 (Tail-all buf) ev in
    let size : length buf ≡ length (body l ls) + 2 + length rest =
      (rw (wire-body l ls) (
        omega (
          arith,
          length-append (body l ls ++ (b'\n' ∷ b'\n' ∷ [])) rest,
          length-append (body l ls) (b'\n' ∷ b'\n' ∷ []),
        ))) in
    let enough : length buf ≡ rounds l ls + (1 + length rest) = omega (arith, rounds-body l ls) in
    let kept = find_from-append (rounds l ls) (1 + length rest) buf [] 0 _ _ found in
    let left : 0 + length (body l ls) ≡ length (body l ls) = omega arith in
    ap (λ f. find_from f buf 0) enough ∙ (rw (append-nil, left) at kept)

after-wire :
    (l : Bytes) (ls : List Bytes) (rest : Bytes)
    → (take (length (body l ls)) (wire (l ∷ ls) ++ rest) ≡ body l ls)
      × (drop (length (body l ls) + 1 + 1) (wire (l ∷ ls) ++ rest) ≡ rest)
after-wire l ls rest =
    let blank = b'\n' ∷ b'\n' ∷ [] in
    let size : length (body l ls) + 1 + 1 ≡ length (body l ls ++ blank) =
      omega (arith, length-append (body l ls) blank) in
    (
      ap (λ w. take (length (body l ls)) (w ++ rest)) (wire-body l ls)
          ∙ ap (take (length (body l ls))) (append_assoc (body l ls) blank rest)
          ∙ take-length (body l ls) (blank ++ rest),
      ap (λ w. drop (length (body l ls) + 1 + 1) (w ++ rest)) (wire-body l ls)
          ∙ ap (λ n. drop n ((body l ls ++ blank) ++ rest)) size
          ∙ drop-length (body l ls ++ blank) rest,
    )

module _ (parse_envelope : Bytes → Option (Option Usage)) where
  -- What an event does to the scanner, read line by line.
  abbrev pub apply_event : List Bytes → UsageScanner → UsageScanner
  apply_event ls s =
      let c = collect_lines ls nothing in
      if c.saw_data_line then take_payload parse_envelope c.bytes s else s

  process_event-body :
      (l : Bytes) (ls : List Bytes) (s : UsageScanner)
      → IsEvent (l ∷ ls)
      → process_event parse_envelope s (body l ls) ≡ apply_event (l ∷ ls) s
  unfolding process_event collect
  process_event-body l ls s ev =
      let fuel : suc (length (body l ls)) ≡ length (body l ls) + 1 = omega arith in
      let read = collect_from-event l ls 0 (body l ls) 0 nothing (Tail-all (body l ls)) ev in
      rw (fuel, read)

  pub settle-wire :
      (l : Bytes) (ls : List Bytes) (rest : Bytes) (s : UsageScanner)
      → IsEvent (l ∷ ls)
      → settle parse_envelope (record s { buf = wire (l ∷ ls) ++ rest })
        ≡ settle parse_envelope (apply_event (l ∷ ls) (record s { buf = rest }))
  settle-wire l ls rest s ev =
      let t : UsageScanner = record s { buf = wire (l ∷ ls) ++ rest } in
      let parts = after-wire l ls rest in
      settle-some parse_envelope t _ _ (find_event_boundary-wire l ls rest ev)
      ∙ ap
          (λ (r : Bytes). settle parse_envelope (
            process_event parse_envelope (record s { buf = r })
              (take (length (body l ls)) (wire (l ∷ ls) ++ rest))))
          parts.1
      ∙ ap
          (λ (e : Bytes).
            settle parse_envelope (process_event parse_envelope (record s { buf = rest }) e))
          parts.0
      ∙ ap (settle parse_envelope) (process_event-body l ls (record s { buf = rest }) ev)
