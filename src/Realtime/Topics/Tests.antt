-- ===== src/Realtime/Topics/Tests.antt =====
-- Messages of clients of user 5.
use request_generator.Common.{◌≡◌, refl, true, false, List, [], ◌∷◌}
use request_generator.Realtime.Topics.{
  Topic, user_topic, role_topic, other_topic, same_topic, is_member, without_topic, new_client,
  any_member, matches, can_subscribe, handle_subscribe, handle_unsubscribe, Message, subscribe,
  unsubscribe, hello, handle, read_loop,
}
use request_generator.Realtime.Topics.Properties.{is_own, matches-own}

program : Unit {0}
unfolding same_topic is_member without_topic any_member can_subscribe handle_subscribe
    handle_unsubscribe handle read_loop
program = tt

abbrev greedy : List Message
greedy =
    hello
    ∷ subscribe (user_topic 6 ∷ user_topic 5 ∷ other_topic 2 ∷ [])
    ∷ unsubscribe (user_topic 5 ∷ role_topic 1 ∷ [])
    ∷ []

answers :
    ((handle_subscribe (user_topic 6 ∷ user_topic 5 ∷ []) (new_client 5 3)).1 ≡ user_topic 5 ∷ [])
    × (is_member (user_topic 6) (read_loop greedy (new_client 5 3)).topics ≡ false)
    × (matches (read_loop greedy (new_client 5 3)).topics (user_topic 6 ∷ role_topic 3 ∷ []) ≡ true)
unfolding program
answers = (refl, refl, refl)

matches-own_example :
    (t : Topic) × (is_member t (user_topic 6 ∷ role_topic 3 ∷ []) ≡ true) × (is_own 5 3 t ≡ true)
unfolding program
matches-own_example = matches-own 5 3 greedy (user_topic 6 ∷ role_topic 3 ∷ []) refl
