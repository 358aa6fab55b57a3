-- ===== src/Upstream/Scanner/Lines.antt =====
-- src/upstream.rs: the two loops of the scanner on an event that is written line by line, as a server sends it.
use native.Mathlib.Nat.{suc-add}
use mathlib.Core.List.{append_assoc}
use patchbay.Common.{
  ℕ, suc, ◌+◌, ◌<◌, ◌≤◌, ◌≡◌, ap, ◌∙◌, Bool, true, false, not, ◌&&◌, some, List, [], ◌∷◌, ◌++◌,
  arith, length, length-append, get_elem?, is_empty, ◌==◌, all,
}
use patchbay.Upstream.{Bytes}
use patchbay.Upstream.Scanner.{not_term, len, term_at, find_from}
use patchbay.Upstream.Scanner.Boundary.{get_elem?-some, get_elem?-none}

-- What stands in the buffer from place `i` on.
pub record Tail (buf : Bytes) (i : ℕ) (cs : Bytes) : Type 0 where
  pub at : (k : ℕ) → get_elem? buf (i + k) ≡ get_elem? cs k

Tail-head : (buf : Bytes) (i : ℕ) (cs : Bytes) → Tail buf i cs → get_elem? buf i ≡ get_elem? cs 0
Tail-head buf i cs t = let e : i ≡ i + 0 = omega arith in ap (get_elem? buf) e ∙ t.at 0

Tail-next :
    (buf : Bytes) (i : ℕ) (cs : Bytes) → Tail buf i cs → get_elem? buf (suc i) ≡ get_elem? cs 1
Tail-next buf i cs t = let e : suc i ≡ i + 1 = omega arith in ap (get_elem? buf) e ∙ t.at 1

pub Tail-of_Tail : (buf : Bytes) (i c : ℕ) (cs : Bytes) → Tail buf i (c ∷ cs) → Tail buf (i + 1) cs
Tail-of_Tail buf i c cs t = record {
  at = λ k. let e : i + 1 + k ≡ i + suc k = omega arith in ap (get_elem? buf) e ∙ t.at (suc k);
}

pub Tail-all : (buf : Bytes) → Tail buf 0 buf
Tail-all buf = record { at = λ k. let e : 0 + k ≡ k = omega arith in ap (get_elem? buf) e }

abbrev pub is_plain : ℕ → Bool
is_plain c = not (c == b'\n') && not (c == b'\r')

-- A line: no byte of it is a terminator.
abbrev pub IsLine : Bytes → Type 0
IsLine line = all is_plain line ≡ true

pub term_at-plain :
    (buf : Bytes) (i c : ℕ) (cs : Bytes)
    → Tail buf i (c ∷ cs)
    → is_plain c ≡ true
    → (term_at buf i ≡ not_term) × (i < length buf)
unfolding term_at
term_at-plain buf i c cs t p =
    let here = Tail-head buf i (c ∷ cs) t in (ground arith, get_elem?-some buf i c here)

pub term_at-newline :
    (buf : Bytes) (i : ℕ) (cs : Bytes)
    → Tail buf i (b'\n' ∷ cs)
    → (term_at buf i ≡ len 1) × (i < length buf)
unfolding term_at
term_at-newline buf i cs t =
    let here = Tail-head buf i (b'\n' ∷ cs) t in (ground arith, get_elem?-some buf i b'\n' here)

pub term_at-end :
    (buf : Bytes) (i : ℕ) → Tail buf i [] → (term_at buf i ≡ not_term) × (length buf ≤ i)
unfolding term_at
term_at-end buf i t = let here = Tail-head buf i [] t in (ground arith, get_elem?-none buf i here)

find_from-not_term :
    (fuel : ℕ) (buf : Bytes) (i : ℕ)
    → term_at buf i ≡ not_term
    → i < length buf
    → find_from (suc fuel) buf i ≡ find_from fuel buf (i + 1)
unfolding find_from
find_from-not_term fuel buf i here inside = ground arith

-- The search for a boundary passes over a line, a byte in each round.
find_from-line :
    (line rest : Bytes) (fuel : ℕ) (buf : Bytes) (i : ℕ)
    → Tail buf i (line ++ rest)
    → IsLine line
    → (find_from (length line + fuel) buf i ≡ find_from fuel buf (i + length line))
      × Tail buf (i + length line) rest
find_from-line [] rest fuel buf i t p =
    let stay : i + 0 ≡ i = omega arith in
    let same : 0 + fuel ≡ fuel = omega arith in (rw (stay, same), rw stay t)
find_from-line (c ∷ line) rest fuel buf i t p =
    let here = term_at-plain buf i c (line ++ rest) t (ground arith) in
    let later =
      find_from-line line rest fuel buf (i + 1) (Tail-of_Tail buf i c _ t) (ground arith) in
    let on : i + suc (length line) ≡ i + 1 + length line = omega arith in
    let step = find_from-not_term (length line + fuel) buf i here.0 here.1 in
    (rw (suc-add, on) (step ∙ later.0), rw on later.1)

-- An event as a server writes it: each line with its newline, then an empty line.
abbrev pub wire : List Bytes → Bytes
wire [] = b'\n' ∷ []
wire (l ∷ ls) = l ++ (b'\n' ∷ wire ls)

-- The event without the newline of its last line and the empty line.
abbrev pub body : Bytes → List Bytes → Bytes
body l [] = l
body l (m ∷ ls) = l ++ (b'\n' ∷ body m ls)

abbrev pub IsEvent : List Bytes → Type 0
IsEvent [] = Unit
IsEvent (l ∷ ls) = (is_empty l ≡ false) × IsLine l × IsEvent ls

-- the rounds of the search
abbrev pub rounds : Bytes → List Bytes → ℕ
rounds l [] = length l + 1
rounds l (m ∷ ls) = length l + suc (rounds m ls)

find_from-last :
    (buf : Bytes) (i : ℕ) (rest : Bytes)
    → Tail buf i (b'\n' ∷ b'\n' ∷ rest)
    → find_from 1 buf i ≡ some (i, i + 1 + 1)
unfolding find_from
find_from-last buf i rest t =
    let first = term_at-newline buf i _ t in
    let second = term_at-newline buf (i + 1) _ (Tail-of_Tail buf i b'\n' _ t) in
    ground (arith, first.0, first.1, second.0)

find_from-more :
    (fuel : ℕ) (buf : Bytes) (i c : ℕ) (rest : Bytes)
    → Tail buf i (b'\n' ∷ c ∷ rest)
    → is_plain c ≡ true
    → find_from (suc fuel) buf i ≡ find_from fuel buf (i + 1)
unfolding find_from
find_from-more fuel buf i c rest t p =
    let first = term_at-newline buf i _ t in
    let second = term_at-plain buf (i + 1) c rest (Tail-of_Tail buf i b'\n' _ t) p in
    ground (arith, first.0, first.1, second.0)

pub find_from-event :
    (l : Bytes) (ls : List Bytes) (rest buf : Bytes) (i : ℕ)
    → Tail buf i (wire (l ∷ ls) ++ rest)
    → IsEvent (l ∷ ls)
    → find_from (rounds l ls) buf i ≡ some (i + length (body l ls), i + length (body l ls) + 1 + 1)
find_from-event l [] rest buf i t ev =
    let t' : Tail buf i (l ++ (b'\n' ∷ b'\n' ∷ rest)) = rw append_assoc at t in
    let skip = find_from-line l _ 1 buf i t' ev.1 in
    skip.0 ∙ find_from-last buf (i + length l) rest skip.1
find_from-event l ([] ∷ ls) rest buf i t ev = cc (ev.2.0)
find_from-event l ((c ∷ m) ∷ ls) rest buf i t ev =
    let t' : Tail buf i (l ++ (b'\n' ∷ (wire ((c ∷ m) ∷ ls) ++ rest))) = rw append_assoc at t in
    let skip = find_from-line l _ (suc (rounds (c ∷ m) ls)) buf i t' ev.1 in
    let plain : is_plain c ≡ true = ground arith in
    let next = Tail-of_Tail buf (i + length l) b'\n' _ skip.1 in
    let total : i + length (body l ((c ∷ m) ∷ ls)) ≡ i + length l + 1 + length (body (c ∷ m) ls) =
      omega (arith, length-append l (b'\n' ∷ body (c ∷ m) ls)) in
    rw total (
      skip.0
      ∙ find_from-more _ buf (i + length l) c _ skip.1 plain
      ∙ find_from-event (c ∷ m) ls rest buf (i + length l + 1) next ev.2)
