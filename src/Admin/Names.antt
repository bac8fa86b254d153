-- ===== src/Admin/Names.antt =====
-- handleCreateInvite of web/src/components/AdminPanel.jsx: the names of topics in a text field.
use Prim.Native.Char.{Char, code}
use Prim.Native.String
use coop_messenger.Prelude.{String, List, [], ◌∷◌, not, map, filter, eqb, ◌===◌, if◌then◌else◌}
use coop_messenger.Commands.{trim}

-- `topics.split(",")`: the part so far is `current`.
abbrev pub with_first : Char → List String → List String
with_first c [] = String.◌∷◌ c "" ∷ []
with_first c (part ∷ parts) = String.◌∷◌ c part ∷ parts

unfoldable pub split_topics : String → List String
split_topics String.[] = "" ∷ []
split_topics (String.◌∷◌ c s) =
    if eqb (code c) b',' then "" ∷ split_topics s else with_first c (split_topics s)

unfoldable pub join_names : List String → String
join_names [] = ""
join_names (t ∷ []) = t
join_names (t ∷ ts) = String.◌++◌ t (String.◌∷◌ "," (join_names ts))

abbrev pub topic_names : String → List String
topic_names topics = filter (λ t. not (t === "")) (map trim (split_topics topics))

unfoldable pub topics_clean : String → String
unfolding split_topics join_names trim
topics_clean topics = join_names (topic_names topics)
