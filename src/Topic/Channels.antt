-- ===== src/Topic/Channels.antt =====
-- topic/resolver.go: the channels, the last segment of a topic.
use navlink.Base.Text.{GoString, text}

abbrev pub Channel : Type 0
Channel = GoString

abbrev pub order : Channel
order = text "order"

abbrev pub instant_actions : Channel
instant_actions = text "instantActions"

abbrev pub state : Channel
state = text "state"

abbrev pub visualization : Channel
visualization = text "visualization"

abbrev pub connection : Channel
connection = text "connection"

abbrev pub factsheet : Channel
factsheet = text "factsheet"
