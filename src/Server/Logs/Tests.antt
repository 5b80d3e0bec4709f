-- ===== src/Server/Logs/Tests.antt =====
-- Runs of the log buffer, and its theorem at three lines.
use warpbox_custom.Prelude.{◌≡◌, List, [], ◌∷◌, Text, codes, take, pos}
use warpbox_custom.Server.Logs.{lines, asked}
use warpbox_custom.Server.Logs.Recent.{after_lines, lines_recent}

abbrev three : List Text
three = codes "third" ∷ codes "second" ∷ codes "first" ∷ []

lines_recent_example : lines (pos 2) (after_lines three) ≡ take (asked (pos 2)) three
lines_recent_example = lines_recent three (pos 2)

newest_two : lines (pos 2) (after_lines three) ≡ codes "third" ∷ codes "second" ∷ []
newest_two = lines_recent_example
