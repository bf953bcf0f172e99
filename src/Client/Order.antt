-- ===== src/Client/Order.antt =====
-- What a thread contains, and in which order.
use eternal_blue.Prelude.{Bytes-tested, Bool, Option, none, some, List, if◌then◌else◌}
use mathlib.Core.List.{Perm}
use mathlib.Core.List.Perm
use eternal_blue.Message.{Message}
use eternal_blue.Client.State.{Client}

abbrev only : (Message → Bool) → Message → Option Message
only p m = if p m then some m else none
