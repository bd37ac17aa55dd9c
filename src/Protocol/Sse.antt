-- ===== src/Protocol/Sse.antt =====
-- src/protocol.rs: `encode_sse_data`.
pub mod Frames
use rivet_durable_streams.Prelude.{
  true, false, ◌&&◌, Text, [], ◌∷◌, ◌++◌, codes, ◌==◌, if◌then◌else◌,
}

-- `replace("\r\n", "\n").replace('\r', "\n")`, in its two passes.
unfoldable pub replace_crlf : Text → Text
replace_crlf [] = []
replace_crlf (a ∷ []) = a ∷ []
replace_crlf (a ∷ b ∷ rest) = elim (a == 13 && b == 10) [
  | true ↦ 10 ∷ replace_crlf rest
  | false ↦ a ∷ replace_crlf (b ∷ rest)
]

unfoldable pub replace_cr : Text → Text
replace_cr [] = []
replace_cr (a ∷ rest) = (if a == 13 then 10 else a) ∷ replace_cr rest

-- `push_str("data:")`, the line and a newline, for each line of `split('\n')`; the argument is the
-- text of the current line so far.
unfoldable pub data_lines : Text → Text → Text
data_lines line [] = codes "data:" ++ line ++ 10 ∷ []
data_lines line (c ∷ cs) =
    let rest = data_lines [] cs in
    let more = data_lines (line ++ c ∷ []) cs in
    if c == 10 then codes "data:" ++ line ++ 10 ∷ rest else more

unfoldable pub encode_sse_data : Text → Text
unfolding replace_crlf replace_cr data_lines
encode_sse_data value = data_lines [] (replace_cr (replace_crlf value)) ++ 10 ∷ []
