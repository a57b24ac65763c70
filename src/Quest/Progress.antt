-- ===== src/Quest/Progress.antt =====
-- The state of the quest and what the client knows of it, over any history of events.
use txgg.Base.{
  ℕ, ◌≡◌, refl, ◌∙◌, sym, Bool, not, ◌&&◌, ◌||◌, Option, none, some, List, [], ◌∷◌, arith, ◌==◌,
  if◌then◌else◌, Bool-cases, inl, inr, ==_iff, add32,
}
use txgg.Container.{Bag, count_thing_num}
use txgg.Quest.{
  QuestInfo, QuestConfig, QuestProgress, in_progress, finished, next_state, update_main_quest_state,
  on_kill_monster, on_bag_changed,
}

-- What the quest asks for is done.
abbrev pub done : QuestConfig → QuestInfo → Bool
done config quest =
    ((config.collect_item == 0) || not (quest.collect_item1_num == 0))
    && ((config.kill_npc == 0) || not (quest.kill_npc1_num == 0))

-- The state says whether it is done, and the client, which keeps the last state that it was told of
-- its quest, knows the state.
pub record InStep (config : QuestConfig) (quest : QuestInfo) (known : ℕ) : Type 0 where
  pub right : quest.state ≡ (if done config quest then finished else in_progress)
  pub same : known ≡ quest.state

abbrev pub told : ℕ → Option QuestProgress → ℕ
told known none = known
told known (some p) = p.state

next_state_lem :
    (config : QuestConfig) (quest : QuestInfo)
    → next_state config quest ≡ (if done config quest then finished else in_progress)
unfolding next_state
next_state_lem config quest = ground arith

update-InStep :
    (config : QuestConfig) (quest : QuestInfo) (known : ℕ)
    → known ≡ quest.state
    → let (quest', sent) = update_main_quest_state config quest in
      InStep config quest' (told known sent)
unfolding update_main_quest_state
update-InStep config quest known k = record {
  right = next_state_lem config quest;
  same = tells (next_state config quest);
}
  where
    tells :
        (n : ℕ)
        → told known (if n == quest.state then none else some (record { id = quest.id; state = n }))
          ≡ n
    tells n = elim (Bool-cases (n == quest.state)) [
      | inl e ↦ rw e (k ∙ sym ((==_iff n quest.state).0 e))
      | inr e ↦ rw e refl
    ]

-- A monster dies, given by that of the map function, or the bag changes.
pub data Event : Type 0 where
  kill : Option ℕ → Event
  bag_change : Bag → Event

-- The quest, and the state that the client knows.
abbrev pub step : QuestConfig → QuestInfo × ℕ → Event → Option QuestInfo × Option QuestProgress
step config (quest, known) (kill monster) = on_kill_monster monster (some config) (some quest)
step config (quest, known) (bag_change bag) = on_bag_changed bag (some config) (some quest)

abbrev pub Holds : QuestConfig → ℕ → Option QuestInfo × Option QuestProgress → Type 0
Holds config known (none, sent) = ⊥
Holds config known (some quest, sent) = InStep config quest (told known sent)

pub step-InStep :
    (config : QuestConfig) (quest : QuestInfo) (known : ℕ) (e : Event)
    → InStep config quest known
    → Holds config known (step config (quest, known) e)
unfolding on_kill_monster on_bag_changed
step-InStep config quest known (kill none) v = v
step-InStep config quest known (kill (some m)) v = elim (Bool-cases (quest.state == finished)) [
  | inl e ↦ rw e v
  | inr e ↦ elim (Bool-cases (config.kill_npc == m)) [
    | inl e' ↦
        rw (e, e')
          (update-InStep config (record quest { kill_npc1_num = add32 quest.kill_npc1_num 1 }) known
            v.same)
    | inr e' ↦ rw (e, e') v
  ]
]
step-InStep config quest known (bag_change bag) v =
    update-InStep config
      (record quest { collect_item1_num = count_thing_num bag config.collect_item }) known v.same

-- The quest in the role after an event.
abbrev pub kept : QuestInfo → Option QuestInfo → QuestInfo
kept quest none = quest
kept quest (some quest') = quest'

pub run : QuestConfig → QuestInfo → ℕ → List Event → QuestInfo × ℕ
run config quest known [] = (quest, known)
run config quest known (e ∷ es) =
    let (quest', sent) = step config (quest, known) e in
    run config (kept quest quest') (told known sent) es

-- A quest whose state is right stays so over any history of kills and changes of the bag: it is
-- finished exactly if the item has been collected, where one is asked for, and the monster has been
-- killed, where one is. And a client that takes over the state of each notify always knows it.
pub run-InStep :
    (config : QuestConfig) (quest : QuestInfo) (known : ℕ) (es : List Event)
    → InStep config quest known
    → let (quest', known') = run config quest known es in InStep config quest' known'
unfolding run
run-InStep config quest known [] v = v
run-InStep config quest known (e ∷ es) v =
    next (step config (quest, known) e) (step-InStep config quest known e v)
      (λ quest' known' v'. run-InStep config quest' known' es v')
  where
    next :
        (r : Option QuestInfo × Option QuestProgress)
        → Holds config known r
        → ((quest' : QuestInfo) (known' : ℕ)
            → InStep config quest' known'
            → let (q, k) = run config quest' known' es in InStep config q k)
        → let (q, k) = run config (kept quest r.0) (told known r.1) es in InStep config q k
    next (none, sent) h go = absurd h
    next (some quest', sent) h go = go quest' (told known sent) h
