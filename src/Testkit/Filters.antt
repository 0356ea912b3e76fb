-- ===== src/Testkit/Filters.antt =====
-- testkit/fake_broker.go matchFilter: MQTT filters, one level for each + or #.
use navlink.Base.{Bool, true, false, ◌||◌, List, [], ◌∷◌, if◌then◌else◌, ◌==◌, nat_eq}
use navlink.Base.Lists.{length}
use navlink.Base.Text.{GoString, text, string_eq, split}

-- The loop of matchFilter; it runs over lists of one length, so the last two clauses do not arise.
unfoldable pub match_parts : List GoString → List GoString → Bool
match_parts [] [] = true
match_parts (f ∷ fs) (t ∷ ts) =
    let rest = match_parts fs ts in
    if f == text "+" || f == text "#" then rest else if f == t then rest else false
match_parts [] (_ ∷ _) = true
match_parts (_ ∷ _) [] = true

-- matchFilter
unfoldable pub match_filter : GoString → GoString → Bool
unfolding match_parts
match_filter filter topic =
    let fp = split b'/' filter in
    let tp = split b'/' topic in if length fp == length tp then match_parts fp tp else false
