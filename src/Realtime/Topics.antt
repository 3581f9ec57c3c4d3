-- ===== src/Realtime/Topics.antt =====
-- realtime.go: the topics of a connection, and the messages that change them.
-- The text of a topic is "user:" and an id, "role:" and a role, or any other; these are never the
-- same text. A role is a number as in Actions/Roles, 0 the empty one. A set of topics is a list.
pub mod Properties
pub mod Tests
use request_generator.Common.{
  ℕ, Bool, true, false, ◌||◌, not, List, [], ◌∷◌, ◌++◌, ◌==◌, if◌then◌else◌,
}
use request_generator.Actions.Roles.{role_all}

pub data Topic : Type 0 where
  user_topic role_topic other_topic : ℕ → Topic

unfoldable pub same_topic : Topic → Topic → Bool
same_topic (user_topic m) (user_topic n) = m == n
same_topic (role_topic m) (role_topic n) = m == n
same_topic (other_topic m) (other_topic n) = m == n
same_topic s t = false

unfoldable pub is_member : Topic → List Topic → Bool
is_member t [] = false
is_member t (x ∷ topics) = same_topic x t || is_member t topics

unfoldable pub without_topic : Topic → List Topic → List Topic
without_topic t [] = []
without_topic t (x ∷ topics) =
    if same_topic x t then without_topic t topics else x ∷ without_topic t topics

pub record Client : Type 0 where
  pub user_id : ℕ
  pub role : ℕ
  pub topics : List Topic

abbrev pub topics_for_user : ℕ → ℕ → List Topic
topics_for_user user role =
    user_topic user ∷ role_topic role_all ∷ (if role == 0 then [] else role_topic role ∷ [])

abbrev pub new_client : ℕ → ℕ → Client
new_client user role = record { user_id = user; role = role; topics = topics_for_user user role }

-- Whether a connection with the first topics gets an event with the second.
unfoldable pub any_member : List Topic → List Topic → Bool
any_member own [] = false
any_member own (t ∷ topics) = is_member t own || any_member own topics

abbrev pub is_empty : List Topic → Bool
is_empty [] = true
is_empty (t ∷ topics) = false

abbrev pub matches : List Topic → List Topic → Bool
matches own topics = if is_empty own then false else any_member own topics

unfoldable pub can_subscribe : Client → Topic → Bool
can_subscribe c t =
    same_topic t (user_topic c.user_id)
    || (same_topic t (role_topic c.role) || same_topic t (role_topic role_all))

-- The client, and the topics that the answer lists.
unfoldable pub handle_subscribe : List Topic → Client → Client × List Topic
handle_subscribe [] c = (c, [])
handle_subscribe (t ∷ topics) c =
    let added = handle_subscribe topics (record c { topics = t ∷ c.topics }) in
    let same = handle_subscribe topics c in
    if can_subscribe c t then (added.0, t ∷ added.1) else same

unfoldable pub handle_unsubscribe : List Topic → Client → Client
handle_unsubscribe [] c = c
handle_unsubscribe (t ∷ topics) c =
    handle_unsubscribe topics
      (if can_subscribe c t then c else record c { topics = without_topic t c.topics })

-- A message of the client; `hello` and `ping` leave the topics.
pub data Message : Type 0 where
  subscribe unsubscribe : List Topic → Message
  hello ping : Message

unfoldable pub handle : Message → Client → Client
handle (subscribe topics) c = (handle_subscribe topics c).0
handle (unsubscribe topics) c = handle_unsubscribe topics c
handle hello c = c
handle ping c = c

unfoldable pub read_loop : List Message → Client → Client
read_loop [] c = c
read_loop (m ∷ messages) c = read_loop messages (handle m c)
