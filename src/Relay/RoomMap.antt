-- ===== src/Relay/RoomMap.antt =====
-- The map from room ids to rooms: an association list with at most one entry for a key.
use ktty.Base.{Text, List, [], ◌∷◌, Option, none, some, text_eq, if◌then◌else◌}
use ktty.Relay.Room.{Room}

abbrev pub Rooms : Type 0
Rooms = List (Text × Room)

unfoldable pub get : Text → Rooms → Option Room
get k [] = none
get k ((j, room) ∷ rooms) = if text_eq j k then some room else get k rooms

unfoldable pub insert : Text → Room → Rooms → Rooms
insert k room [] = (k, room) ∷ []
insert k room ((j, old) ∷ rooms) =
    if text_eq j k then (j, room) ∷ rooms else (j, old) ∷ insert k room rooms

unfoldable pub remove : Text → Rooms → Rooms
remove k [] = []
remove k ((j, old) ∷ rooms) = if text_eq j k then rooms else (j, old) ∷ remove k rooms
