-- ===== src/Refresh/Content.antt =====
-- internal/refresh/refresh.go: what is cut from a body and a snippet before they are stored. The
-- functions stripEmbeddedReplies, isReplyBoundary and truncateTextBytes of
-- internal/daemon/daemon.go are copies of these.
use ksuite_mail.Common.{
  ℕ, ◌+◌, Bool, ◌&&◌, List, [], ◌∷◌, ◌++◌, ltb, leb, ◌==◌, if◌then◌else◌, Text, codes,
}
use ksuite_mail.Strings.{rune_len, byte_len, trim_space, split, join, has_prefix, contains}

unfoldable pub is_reply_boundary : Text → Bool
unfolding has_prefix contains
is_reply_boundary line = has_prefix line (codes "On ") && contains line (codes "wrote:")

-- The lines before the first boundary.
unfoldable pub take_until_boundary : List Text → List Text
take_until_boundary [] = []
take_until_boundary (line ∷ lines) =
    if is_reply_boundary (trim_space line) then [] else line ∷ take_until_boundary lines

abbrev pub newline : ℕ
newline = 10

unfoldable pub strip_embedded_replies : Text → Text
unfolding split take_until_boundary join trim_space
strip_embedded_replies [] = []
strip_embedded_replies (r ∷ rs) =
    trim_space (join (newline ∷ []) (take_until_boundary (split newline (r ∷ rs))))

-- The loop over the runes: `i` is the byte at which the next rune starts, `cut` is s[:last] and
-- `seen` is s[:i].
unfoldable pub truncate_loop : ℕ → ℕ → Text → Text → Text → Text
truncate_loop max_bytes i cut seen [] = cut
truncate_loop max_bytes i cut seen (r ∷ rs) =
    let rest = truncate_loop max_bytes (i + rune_len r) seen (seen ++ r ∷ []) rs in
    if ltb max_bytes i then cut else if i == max_bytes then seen else rest

unfoldable pub truncate_text_bytes : Text → ℕ → Text
unfolding truncate_loop
truncate_text_bytes s max_bytes =
    if max_bytes == 0
    then []
    else if leb (byte_len s) max_bytes
    then s
    else truncate_loop max_bytes 0 [] [] s
