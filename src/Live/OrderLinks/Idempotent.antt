-- ===== src/Live/OrderLinks/Idempotent.antt =====
-- Repeated execution reports in ez/live/_broker_order_links.py.
use backtesting_framework.Common.{ℕ, [], ◌∷◌, ◌==◌, if◌then◌else◌}
use backtesting_framework.Common.Text.{Text, text_eq}
use backtesting_framework.Live.Events.Status.{Status}
use backtesting_framework.Live.OrderLinks.Table.{LinkKey, link_key_eq, Link, Links}

abbrev pub touched : ℕ → Link → Link
touched now link = record link { updated_at = now }

-- The table with a new time of update in the row of a key.
abbrev pub touch : LinkKey → ℕ → Links → Links
touch key now [] = []
touch key now ((k, link) ∷ links) =
    if k == key then (k, touched now link) ∷ links else (k, link) ∷ touch key now links
