-- ===== src/Realtime/Publisher/Name.antt =====
-- The names of the events for the sockets, as numbers other than 0.
use onion_architecture.Domain.{Text}

abbrev pub created : Text
created = 1

abbrev pub expired : Text
expired = 2

abbrev pub cancelled : Text
cancelled = 3

abbrev pub slot_changed : Text
slot_changed = 4

abbrev pub occupancy_changed : Text
occupancy_changed = 5

abbrev pub entry : Text
entry = 6

abbrev pub exit : Text
exit = 7

abbrev pub resolved : Text
resolved = 8

abbrev pub payment : Text
payment = 9
