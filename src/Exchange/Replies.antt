-- ===== src/Exchange/Replies.antt =====
-- server/internal/proxy/proxy.go: a client gets one status, and the metrics count one outcome.
use bumshi.Common.{ℕ, zero, suc, Bool, true, false, List, [], ◌∷◌, ◌≡◌, ap, ◌∙◌, if◌then◌else◌}
use bumshi.Exchange.{Event, http_error, write_header, write, flush, count}

-- How many statuses are sent, and how many outcomes are counted.
unfoldable pub statuses : List Event → ℕ
statuses [] = 0
statuses (http_error h s m ∷ es) = suc (statuses es)
statuses (write_header h s ∷ es) = suc (statuses es)
statuses (write b ∷ es) = statuses es
statuses (flush ∷ es) = statuses es
statuses (count o ∷ es) = statuses es

unfoldable pub outcomes : List Event → ℕ
outcomes [] = 0
outcomes (count o ∷ es) = suc (outcomes es)
outcomes (http_error h s m ∷ es) = outcomes es
outcomes (write_header h s ∷ es) = outcomes es
outcomes (write b ∷ es) = outcomes es
outcomes (flush ∷ es) = outcomes es

abbrev pub IsReply : List Event → Type 0
IsReply es = (statuses es ≡ 1) × (outcomes es ≡ 1)
