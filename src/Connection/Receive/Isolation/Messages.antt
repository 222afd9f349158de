-- ===== src/Connection/Receive/Isolation/Messages.antt =====
-- A message whose frames stand among those of other streams.
use webson.Common.{Bool, false, List, [], ◌∷◌}
use webson.Message.{Message}
use webson.Connection.{Connection}

-- Frames whose streams are not cancelled.
abbrev pub kept : List Message → List (Message × Bool)
kept [] = []
kept (m ∷ ms) = (m, false) ∷ kept ms
