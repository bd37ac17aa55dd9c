-- ===== src/Protocol/Sse/Frames.antt =====
-- What a client of server-sent events reads from the output of `encode_sse_data`.
use mathlib.Core.List.{append_assoc, append-nil}
use rivet_durable_streams.Prelude.{
  ℕ, ◌≡◌, refl, sym, ap, ◌∙◌, Bool, true, false, not, drop, ◌&&◌, Text, List, [], ◌∷◌, ◌++◌, map,
  codes, ◌==◌, if◌then◌else◌, all, arith, Bool-cases, inl, inr,
}
use rivet_durable_streams.Protocol.Sse.{replace_crlf, replace_cr, data_lines, encode_sse_data}

-- A byte in front of the first line.
abbrev onto_first : ℕ → List Text → List Text
onto_first c [] = (c ∷ []) ∷ []
onto_first c (l ∷ ls) = (c ∷ l) ∷ ls

-- The lines between the newlines of a text.
unfoldable pub lines : Text → List Text
lines [] = [] ∷ []
lines (c ∷ cs) = let rest = lines cs in if c == 10 then [] ∷ rest else onto_first c rest

-- The lines with a newline between each two.
abbrev pub joined : List Text → Text
joined [] = []
joined (l ∷ []) = l
joined (l ∷ m ∷ ls) = l ++ 10 ∷ joined (m ∷ ls)

unfoldable pub is_line : Text → Bool
unfolding all
is_line = all (λ c. not (c == 10))

lines-cons : (t : Text) → (l : Text) × (ls : List Text) × (lines t ≡ l ∷ ls)
unfolding lines
lines-cons [] = ([], [], refl)
lines-cons (c ∷ cs) =
    let (l, ls, e) = lines-cons cs in
    elim (Bool-cases (c == 10)) [
      | inl h ↦ ([], lines cs, rw h refl)
      | inr h ↦ (c ∷ l, ls, rw (h, e) refl)
    ]

joined-onto : (c : ℕ) (l : Text) (ls : List Text) → joined ((c ∷ l) ∷ ls) ≡ c ∷ joined (l ∷ ls)
joined-onto c l [] = refl
joined-onto c l (m ∷ ls) = refl

joined-lines : (t : Text) → joined (lines t) ≡ t
unfolding lines
joined-lines [] = refl
joined-lines (c ∷ cs) =
    let (l, ls, e) = lines-cons cs in
    let again : joined (l ∷ ls) ≡ cs = ap joined (sym e) ∙ joined-lines cs in
    elim (Bool-cases (c == 10)) [
      | inl h ↦
          let k : 10 ≡ c = ground arith in rw (h, e) (ap (λ r. 10 ∷ r) again ∙ ap (λ d. d ∷ cs) k)
      | inr h ↦ rw (h, e) (joined-onto c l ls ∙ ap (λ r. c ∷ r) again)
    ]

-- A line, a newline and more text.
lines-line : (l t : Text) → is_line l ≡ true → lines (l ++ 10 ∷ t) ≡ l ∷ lines t
unfolding lines is_line
lines-line [] t h = refl
lines-line (c ∷ cs) t h = ground (arith, lines-line cs t)

-- A line of data for each line.
abbrev pub data_line : Text → Text
data_line l = codes "data:" ++ l

abbrev emitted : List Text → Text
emitted [] = []
emitted (l ∷ ls) = codes "data:" ++ l ++ 10 ∷ emitted ls

abbrev onto_line : Text → List Text → List Text
onto_line line [] = line ∷ []
onto_line line (l ∷ ls) = (line ++ l) ∷ ls

data_lines-emitted : (line t : Text) → data_lines line t ≡ emitted (onto_line line (lines t))
unfolding data_lines lines
data_lines-emitted line [] = ap (λ l. codes "data:" ++ l ++ 10 ∷ []) (sym (append-nil line))
data_lines-emitted line (c ∷ cs) =
    let (l, ls, e) = lines-cons cs in
    elim (Bool-cases (c == 10)) [
      | inl h ↦
          let rest : data_lines [] cs ≡ emitted (lines cs) =
            data_lines-emitted [] cs ∙ ap (λ x. emitted (onto_line [] x)) e ∙ sym (ap emitted e) in
          rw h (
            ap (λ r. codes "data:" ++ line ++ 10 ∷ r) rest
            ∙ ap (λ x. codes "data:" ++ x ++ 10 ∷ emitted (lines cs)) (sym (append-nil line)))
      | inr h ↦ rw h (
          data_lines-emitted (line ++ c ∷ []) cs
          ∙ ap (λ x. emitted (onto_line (line ++ c ∷ []) x)) e
          ∙ ap (λ x. emitted (x ∷ ls)) (append_assoc line (c ∷ []) l)
          ∙ sym (ap (λ x. emitted (onto_line line (onto_first c x))) e))
    ]

all-lines : (t : Text) → all is_line (lines t) ≡ true
unfolding all lines is_line
all-lines [] = refl
all-lines (c ∷ cs) =
    let (l, ls, e) = lines-cons cs in
    let rest : all is_line (l ∷ ls) ≡ true = ap (all is_line) (sym e) ∙ all-lines cs in
    elim (Bool-cases (c == 10)) [
      | inl h ↦ rw (h, e) rest
      | inr h ↦ rw (h, e) (ap (λ b. (not b && is_line l) && all is_line ls) h ∙ rest)
    ]

data_line-is_line : (l : Text) → is_line l ≡ true → is_line (data_line l) ≡ true
unfolding is_line codes all
data_line-is_line l h = h

lines-emitted :
    (ls : List Text)
    → all is_line ls ≡ true
    → lines (emitted ls ++ 10 ∷ []) ≡ map data_line ls ++ [] ∷ [] ∷ []
unfolding all lines codes
lines-emitted [] h = refl
lines-emitted (l ∷ ls) h =
    ap lines (
      ap (λ t. t ++ 10 ∷ []) (sym (append_assoc (codes "data:") l (10 ∷ emitted ls)))
      ∙ append_assoc (data_line l) (10 ∷ emitted ls) (10 ∷ []))
    ∙ lines-line (data_line l) (emitted ls ++ 10 ∷ []) (data_line-is_line l (ground arith))
    ∙ ap (λ r. data_line l ∷ r) (lines-emitted ls (ground arith))

-- A text with every line end (13 10, 13 or 10) as one newline; the flag says that the last byte was
-- a carriage return, whose line end a newline belongs to.
unfoldable pub newlines : Bool → Text → Text
newlines ended [] = []
newlines ended (c ∷ cs) =
    let after_return = newlines true cs in
    let rest = newlines false cs in
    if c == 13 then 10 ∷ after_return else if ended && c == 10 then rest else c ∷ rest

newlines_ended :
    (b : ℕ) (cs : Text) → (b == 10) ≡ false → newlines true (b ∷ cs) ≡ newlines false (b ∷ cs)
unfolding newlines
newlines_ended b cs h = rw h refl

-- The first pass at the front of a text.
crlf_pair :
    (a b : ℕ) (rest : Text)
    → (a == 13) ≡ true
    → (b == 10) ≡ true
    → replace_crlf (a ∷ b ∷ rest) ≡ 10 ∷ replace_crlf rest
unfolding replace_crlf
crlf_pair a b rest h k = rw (h, k, replace_crlf) refl

crlf_none :
    (a b : ℕ) (rest : Text)
    → ((a == 13) && (b == 10)) ≡ false
    → replace_crlf (a ∷ b ∷ rest) ≡ a ∷ replace_crlf (b ∷ rest)
unfolding replace_crlf
crlf_none a b rest h = rw (h, replace_crlf) refl

-- The two passes of the code give these newlines.
replaced : (value : Text) → replace_cr (replace_crlf value) ≡ newlines false value
unfolding replace_cr newlines
replaced [] = unfold replace_crlf in refl
replaced (a ∷ []) = unfold replace_crlf in ground arith
replaced (a ∷ b ∷ rest) = elim (Bool-cases (a == 13)) [
  | inl return ↦ elim (Bool-cases (b == 10)) [
    | inl newline ↦
        let other : (b == 13) ≡ false = ground arith in
        ap replace_cr (crlf_pair a b rest return newline)
        ∙ rw (return, newline, other) (ap (◌∷◌ 10) (replaced rest))
    | inr more ↦
        ap replace_cr (crlf_none a b rest (rw (return, more) refl))
        ∙ rw return (ap (◌∷◌ 10) (replaced (b ∷ rest) ∙ sym (newlines_ended b rest more)))
  ]
  | inr plain ↦
      ap replace_cr (crlf_none a b rest (rw plain refl))
      ∙ rw plain (ap (◌∷◌ a) (replaced (b ∷ rest)))
]

-- What a client makes of the lines of an event up to the empty line: each without its first five
-- bytes, with newlines between.
abbrev data_of : List Text → List Text
data_of [] = []
data_of ([] ∷ ls) = []
data_of ((c ∷ l) ∷ ls) = drop 5 (c ∷ l) ∷ data_of ls

abbrev pub received : Text → Text
received frame = joined (data_of (lines frame))

data_of-map : (ls : List Text) → data_of (map data_line ls ++ [] ∷ [] ∷ []) ≡ ls
unfolding codes
data_of-map [] = refl
data_of-map (l ∷ ls) = ap (◌∷◌ l) (data_of-map ls)

-- The frame of a value, cut at its newlines, is one line of data for each line of the value and then
-- the empty line that ends the event. A client that takes the data of the lines up to the empty one
-- receives the value, but for its line ends: each (CR LF, CR or LF) has become one newline.
pub encode_sse_data-lines :
    (value : Text)
    → (lines (encode_sse_data value) ≡ map data_line (lines (newlines false value)) ++ [] ∷ [] ∷ [])
      × (received (encode_sse_data value) ≡ newlines false value)
unfolding encode_sse_data
encode_sse_data-lines value =
    let text = newlines false value in
    let (l, ls, e) = lines-cons text in
    let same : data_lines [] text ≡ emitted (lines text) =
      data_lines-emitted [] text ∙ ap (λ x. emitted (onto_line [] x)) e ∙ sym (ap emitted e) in
    let cut : lines (encode_sse_data value) ≡ map data_line (lines text) ++ [] ∷ [] ∷ [] =
      ap (λ t. lines (data_lines [] t ++ 10 ∷ [])) (replaced value)
      ∙ ap (λ t. lines (t ++ 10 ∷ [])) same
      ∙ lines-emitted (lines text) (all-lines text) in
    (
      cut,
      ap (λ ls. joined (data_of ls)) cut ∙ ap joined (data_of-map (lines text)) ∙ joined-lines text,
    )
