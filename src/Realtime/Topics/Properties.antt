-- ===== src/Realtime/Topics/Properties.antt =====
-- realtime.go: what messages can do to the topics of a connection.
use request_generator.Common.{
  ℕ, ◌≡◌, ◌≢◌, refl, inl, inr, Bool, true, false, ◌||◌, List, [], ◌∷◌, Bool-cases, arith,
}
use request_generator.Actions.Roles.{role_all}
use request_generator.Realtime.Topics.{
  Topic, user_topic, role_topic, other_topic, same_topic, is_member, without_topic, Client,
  topics_for_user, new_client, any_member, matches, can_subscribe, handle_subscribe,
  handle_unsubscribe, Message, subscribe, unsubscribe, hello, ping, handle, read_loop,
}

pub same_topic-eq : (s t : Topic) → same_topic s t ≡ true → s ≡ t
unfolding same_topic
same_topic-eq (user_topic m) (user_topic n) h = ground arith
same_topic-eq (user_topic m) (role_topic n) h = cc
same_topic-eq (user_topic m) (other_topic n) h = cc
same_topic-eq (role_topic m) (user_topic n) h = cc
same_topic-eq (role_topic m) (role_topic n) h = ground arith
same_topic-eq (role_topic m) (other_topic n) h = cc
same_topic-eq (other_topic m) (user_topic n) h = cc
same_topic-eq (other_topic m) (role_topic n) h = cc
same_topic-eq (other_topic m) (other_topic n) h = ground arith

pub same_topic_refl : (t : Topic) → same_topic t t ≡ true
unfolding same_topic
same_topic_refl (user_topic n) = ground arith
same_topic_refl (role_topic n) = ground arith
same_topic_refl (other_topic n) = ground arith

same_topic_sym : (s t : Topic) → same_topic s t ≡ same_topic t s
unfolding same_topic
same_topic_sym (user_topic m) (user_topic n) = ground arith
same_topic_sym (user_topic m) (role_topic n) = refl
same_topic_sym (user_topic m) (other_topic n) = refl
same_topic_sym (role_topic m) (user_topic n) = refl
same_topic_sym (role_topic m) (role_topic n) = ground arith
same_topic_sym (role_topic m) (other_topic n) = refl
same_topic_sym (other_topic m) (user_topic n) = refl
same_topic_sym (other_topic m) (role_topic n) = refl
same_topic_sym (other_topic m) (other_topic n) = ground arith

is_member-without :
    (s t : Topic) (topics : List Topic)
    → same_topic s t ≡ false
    → is_member s topics ≡ true
    → is_member s (without_topic t topics) ≡ true
unfolding is_member without_topic
is_member-without s t [] n h = cc
is_member-without s t (x ∷ topics) n h =
    ground (arith, is_member-without s t topics n, same_topic-eq x s, same_topic-eq x t)

without-is_member :
    (s t : Topic) (topics : List Topic)
    → is_member s (without_topic t topics) ≡ true
    → is_member s topics ≡ true
unfolding is_member without_topic
without-is_member s t [] h = cc
without-is_member s t (x ∷ topics) h = ground (arith, without-is_member s t topics)

-- The topics of a user with a role, and the empty role's where it has none.
abbrev pub is_own : ℕ → ℕ → Topic → Bool
is_own user role t =
    same_topic t (user_topic user)
    || (same_topic t (role_topic role) || same_topic t (role_topic role_all))

pub record Inv (user role : ℕ) (c : Client) : Type 0 where
  pub same_user : c.user_id ≡ user
  pub same_role : c.role ≡ role
  pub within : (t : Topic) → is_member t c.topics ≡ true → is_own user role t ≡ true
  pub base :
      (t : Topic) → is_member t (topics_for_user user role) ≡ true → is_member t c.topics ≡ true

base-own :
    (user role : ℕ) (t : Topic)
    → is_member t (topics_for_user user role) ≡ true
    → is_own user role t ≡ true
unfolding is_member
base-own user role t h = ground (
  arith,
  same_topic_sym t (user_topic user),
  same_topic_sym t (role_topic role),
  same_topic_sym t (role_topic role_all),
)

pub new-Inv : (user role : ℕ) → Inv user role (new_client user role)
new-Inv user role = record {
  same_user = refl;
  same_role = refl;
  within = λ t h. base-own user role t h;
  base = λ t h. h;
}

add-Inv :
    (user role : ℕ) (t : Topic) (c : Client)
    → Inv user role c
    → can_subscribe c t ≡ true
    → Inv user role (record c { topics = t ∷ c.topics })
unfolding can_subscribe is_member
add-Inv user role t c v e = record {
  same_user = v.same_user;
  same_role = v.same_role;
  within = λ s h. ground (arith, v.within s, same_topic-eq t s, v.same_user, v.same_role);
  base = λ s h. ground (arith, v.base s h);
}

leave-Inv :
    (user role : ℕ) (t : Topic) (c : Client)
    → Inv user role c
    → can_subscribe c t ≡ false
    → Inv user role (record c { topics = without_topic t c.topics })
unfolding can_subscribe
leave-Inv user role t c v e = record {
  same_user = v.same_user;
  same_role = v.same_role;
  within = λ s h. v.within s (without-is_member s t c.topics h);
  base = λ s h. ground (
    arith,
    is_member-without s t c.topics,
    v.base s h,
    base-own user role s h,
    same_topic-eq s t,
    v.same_user,
    v.same_role,
  );
}

subscribe-Inv :
    (user role : ℕ) (topics : List Topic) (c : Client)
    → Inv user role c
    → Inv user role (handle_subscribe topics c).0
unfolding handle_subscribe
subscribe-Inv user role [] c v = v
subscribe-Inv user role (t ∷ topics) c v = elim (Bool-cases (can_subscribe c t)) [
  | inl may ↦
      rw (may, handle_subscribe) (subscribe-Inv user role topics _ (add-Inv user role t c v may))
  | inr not_own ↦ rw (not_own, handle_subscribe) (subscribe-Inv user role topics c v)
]

unsubscribe-Inv :
    (user role : ℕ) (topics : List Topic) (c : Client)
    → Inv user role c
    → Inv user role (handle_unsubscribe topics c)
unfolding handle_unsubscribe
unsubscribe-Inv user role [] c v = v
unsubscribe-Inv user role (t ∷ topics) c v = elim (Bool-cases (can_subscribe c t)) [
  | inl own ↦ rw (own, handle_unsubscribe) (unsubscribe-Inv user role topics c v)
  | inr not_own ↦
      rw (not_own, handle_unsubscribe)
        (unsubscribe-Inv user role topics _ (leave-Inv user role t c v not_own))
]

handle-Inv :
    (user role : ℕ) (m : Message) (c : Client) → Inv user role c → Inv user role (handle m c)
unfolding handle
handle-Inv user role (subscribe topics) c v = subscribe-Inv user role topics c v
handle-Inv user role (unsubscribe topics) c v = unsubscribe-Inv user role topics c v
handle-Inv user role hello c v = v
handle-Inv user role ping c v = v

pub read_loop-Inv :
    (user role : ℕ) (messages : List Message) (c : Client)
    → Inv user role c
    → Inv user role (read_loop messages c)
unfolding read_loop
read_loop-Inv user role [] c v = v
read_loop-Inv user role (m ∷ messages) c v =
    read_loop-Inv user role messages (handle m c) (handle-Inv user role m c v)

own-base :
    (user role : ℕ) (t : Topic)
    → role ≢ 0
    → is_own user role t ≡ true
    → is_member t (topics_for_user user role) ≡ true
unfolding is_member
own-base user role t n h = ground (
  arith,
  same_topic_sym t (user_topic user),
  same_topic_sym t (role_topic role),
  same_topic_sym t (role_topic role_all),
)

-- Whatever a client sends, the topics of the connection of a user with a role stay those that the
-- server gave it: its own, its role's and that of all. No message subscribes to another user or
-- role, and none leaves a topic.
read_loop-topics :
    (user role : ℕ) (messages : List Message) (t : Topic)
    → role ≢ 0
    → is_member t (read_loop messages (new_client user role)).topics
      ≡ is_member t (topics_for_user user role)
read_loop-topics user role messages t n =
    let v = read_loop-Inv user role messages (new_client user role) (new-Inv user role) in
    ground (arith, v.within t, v.base t, own-base user role t n)

any_member-some :
    (own topics : List Topic)
    → any_member own topics ≡ true
    → (t : Topic) × (is_member t topics ≡ true) × (is_member t own ≡ true)
unfolding any_member is_member
any_member-some own [] h = absurd (ground arith)
any_member-some own (t ∷ topics) h = elim (Bool-cases (is_member t own)) [
  | inl here ↦ (t, ground (arith, same_topic_refl t), here)
  | inr there ↦
      let (s, later, mine) = any_member-some own topics (ground (arith, there)) in
      (s, ground arith, mine)
]

pub matches-some :
    (own topics : List Topic)
    → matches own topics ≡ true
    → (t : Topic) × (is_member t topics ≡ true) × (is_member t own ≡ true)
matches-some own topics h = any_member-some own topics (ground arith)

-- Whatever a client has sent, its connection gets an event only if one of the event's topics is
-- that of its user, of its role or of all.
pub matches-own :
    (user role : ℕ) (messages : List Message) (topics : List Topic)
    → matches (read_loop messages (new_client user role)).topics topics ≡ true
    → (t : Topic) × (is_member t topics ≡ true) × (is_own user role t ≡ true)
matches-own user role messages topics h =
    let v = read_loop-Inv user role messages (new_client user role) (new-Inv user role) in
    let (t, listed, mine) = matches-some _ topics h in (t, listed, v.within t mine)
