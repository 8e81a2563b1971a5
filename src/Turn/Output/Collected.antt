-- ===== src/Turn/Output/Collected.antt =====
-- What the collector keeps from envelope to envelope: crates/codex-runtime/src/runtime/turn_output.rs.
use coclai.Prelude.{
  ℕ, String, ◌≡◌, refl, sym, ap, ◌∙◌, true, false, Option, none, some, List, [], ◌∷◌, ◌++◌, ◌>>=◌,
  contains, codes, arith, eq_iff, Bool-cases, Option-cases, inl, inr,
}
use coclai.Json.{Json}
use coclai.Events.{Envelope}
use coclai.Events.Extract.{has_method, extract_text_from_params}
use coclai.RpcContract.{item_agent_message_delta, item_completed, turn_completed}
use coclai.Turn.Output.{
  AssistantTextCollector, has_id, append_line, merge_turn_completed_text, track_assistant_item,
  append_delta, append_completed_item, append_completed_turn, append_text_from_envelope, push_text,
  is_assistant_item, insert_id,
}
use coclai.Turn.Output.Merge.{BeginsWith, append_nil, merge_turn_completed_text-keeps_both}

append_line-BeginsWith : (out text : List ℕ) → BeginsWith out (append_line out text)
unfolding append_line
append_line-BeginsWith out [] = ([], sym (append_nil out))
append_line-BeginsWith [] (c ∷ cs) = (c ∷ cs, refl)
append_line-BeginsWith (d ∷ ds) (c ∷ cs) = (10 ∷ c ∷ cs, refl)

module _ (json : Json) where
  open json use {Value, get, as_str}

  -- What holds of the collector before, and of each text that an arm may leave, holds after the arm.
  append_delta-arms :
      (P : AssistantTextCollector → Type 0) (c : AssistantTextCollector) (envelope : Envelope Value)
      → P c
      → ((delta : String)
          → P (record c {
            assistant_items_with_delta = insert_id c.assistant_items_with_delta envelope.item_id;
            text = c.text ++ codes delta;
          }))
      → P (append_delta json c envelope)
  unfolding append_delta
  append_delta-arms P c envelope stays adds =
      elim (Option-cases (get "params" envelope.json >>= λ p. get "delta" p >>= as_str)) [
        | inl missing ↦ rw (append_delta, missing) stays
        | inr (delta, found) ↦ rw (append_delta, found) (adds delta)
      ]

  append_completed_turn-arms :
      (P : AssistantTextCollector → Type 0) (c : AssistantTextCollector) (envelope : Envelope Value)
      → P c
      → ((text : List ℕ) → P (record c { text = merge_turn_completed_text c.text text }))
      → P (append_completed_turn json c envelope)
  unfolding append_completed_turn
  append_completed_turn-arms P c envelope stays merges =
      elim (Option-cases (get "params" envelope.json >>= extract_text_from_params json)) [
        | inl missing ↦ rw (append_completed_turn, missing) stays
        | inr (text, found) ↦ rw (append_completed_turn, found) (merges text)
      ]

  append_completed_item-arms :
      (P : AssistantTextCollector → Type 0) (c : AssistantTextCollector) (envelope : Envelope Value)
      → P c
      → ((text : List ℕ) → P (record c { text = append_line c.text text }))
      → P (append_completed_item json c envelope)
  unfolding append_completed_item
  append_completed_item-arms P c envelope stays adds =
      elim (Bool-cases (is_assistant_item json c envelope)) [
        | inr other ↦ rw (append_completed_item, other) stays
        | inl ours ↦ elim (Bool-cases (has_id c.assistant_items_with_delta envelope.item_id)) [
          | inl streamed ↦ rw (append_completed_item, ours, streamed) stays
          | inr new ↦
              elim (Option-cases (get "params" envelope.json >>= extract_text_from_params json)) [
                | inl missing ↦ rw (append_completed_item, ours, new, missing) stays
                | inr (text, found) ↦ rw (append_completed_item, ours, new, found) (adds text)
              ]
        ]
      ]

  push_text-arms :
      (P : AssistantTextCollector → Type 0) (c : AssistantTextCollector) (envelope : Envelope Value)
      → ((ids : List String)
          → P (record c { assistant_item_ids = ids })
            × P (append_delta json (record c { assistant_item_ids = ids }) envelope)
            × P (append_completed_item json (record c { assistant_item_ids = ids }) envelope)
            × P (append_completed_turn json (record c { assistant_item_ids = ids }) envelope))
      → P (push_text json c envelope)
  unfolding push_text append_text_from_envelope
  push_text-arms P c envelope arms =
      let (stays, delta, item, turn) =
        arms (track_assistant_item json c.assistant_item_ids envelope) in
      elim (Bool-cases (has_method envelope item_agent_message_delta)) [
        | inl is_delta ↦ rw (push_text, append_text_from_envelope, is_delta) delta
        | inr no_delta ↦ elim (Bool-cases (has_method envelope item_completed)) [
          | inl is_item ↦ rw (push_text, append_text_from_envelope, no_delta, is_item) item
          | inr no_item ↦ elim (Bool-cases (has_method envelope turn_completed)) [
            | inl is_turn ↦
                rw (push_text, append_text_from_envelope, no_delta, no_item, is_turn) turn
            | inr no_turn ↦
                rw (push_text, append_text_from_envelope, no_delta, no_item, no_turn) stays
          ]
        ]
      ]

  -- The collected text only grows: whatever envelope comes, the text after it begins with the text
  -- before it.
  pub push_text-BeginsWith :
      (c : AssistantTextCollector) (envelope : Envelope Value)
      → BeginsWith c.text (push_text json c envelope).text
  push_text-BeginsWith c envelope = push_text-arms Grows c envelope λ ids. (
    stays,
    append_delta-arms Grows (record c { assistant_item_ids = ids }) envelope stays
        (λ delta. (codes delta, refl)),
    append_completed_item-arms Grows (record c { assistant_item_ids = ids }) envelope stays
        (append_line-BeginsWith c.text),
    append_completed_turn-arms Grows (record c { assistant_item_ids = ids }) envelope stays
        (λ text. (merge_turn_completed_text-keeps_both c.text text).0),
  )
    where
      Grows : AssistantTextCollector → Type 0
      Grows d = BeginsWith c.text d.text

      stays : BeginsWith c.text c.text
      stays = ([], sym (append_nil c.text))

  -- The collector after several envelopes.
  unfoldable pub push_all : AssistantTextCollector → List (Envelope Value) → AssistantTextCollector
  unfolding push_text
  push_all c [] = c
  push_all c (e ∷ es) = push_all (push_text json c e) es

  insert_id-contains :
      (ids : List String) (id : Option String) (j : String)
      → contains ids j ≡ true
      → contains (insert_id ids id) j ≡ true
  unfolding contains
  insert_id-contains ids none j h = h
  insert_id-contains ids (some id) j h = ground (arith, h)

  insert_id-here : (ids : List String) (id : String) → contains (insert_id ids (some id)) id ≡ true
  unfolding contains
  insert_id-here ids id = let same = eq_iff id id in ground arith

  -- An item that has a delta keeps it on record.
  push_text-keeps_delta :
      (c : AssistantTextCollector) (envelope : Envelope Value) (id : String)
      → contains c.assistant_items_with_delta id ≡ true
      → contains (push_text json c envelope).assistant_items_with_delta id ≡ true
  push_text-keeps_delta c envelope id h = push_text-arms Kept c envelope λ ids. (
    h,
    append_delta-arms Kept (record c { assistant_item_ids = ids }) envelope h
        (λ delta. insert_id-contains c.assistant_items_with_delta envelope.item_id id h),
    append_completed_item-arms Kept (record c { assistant_item_ids = ids }) envelope h (λ text. h),
    append_completed_turn-arms Kept (record c { assistant_item_ids = ids }) envelope h (λ text. h),
  )
    where
      Kept : AssistantTextCollector → Type 0
      Kept d = contains d.assistant_items_with_delta id ≡ true

  push_all-keeps_delta :
      (c : AssistantTextCollector) (es : List (Envelope Value)) (id : String)
      → contains c.assistant_items_with_delta id ≡ true
      → contains (push_all c es).assistant_items_with_delta id ≡ true
  unfolding push_all
  push_all-keeps_delta c [] id h = h
  push_all-keeps_delta c (e ∷ es) id h =
      push_all-keeps_delta (push_text json c e) es id (push_text-keeps_delta c e id h)

  append_delta-here :
      (c : AssistantTextCollector) (delta : Envelope Value) (id text : String)
      → delta.item_id ≡ some id
      → (get "params" delta.json >>= λ p. get "delta" p >>= as_str) ≡ some text
      → contains (append_delta json c delta).assistant_items_with_delta id ≡ true
  unfolding append_delta
  append_delta-here c delta id text i t =
      rw (append_delta, t, i) (insert_id-here c.assistant_items_with_delta id)

  push_text_delta :
      (c : AssistantTextCollector) (delta : Envelope Value) (id text : String)
      → has_method delta item_agent_message_delta ≡ true
      → delta.item_id ≡ some id
      → (get "params" delta.json >>= λ p. get "delta" p >>= as_str) ≡ some text
      → contains (push_text json c delta).assistant_items_with_delta id ≡ true
  unfolding push_text append_text_from_envelope
  push_text_delta c delta id text m i t =
      rw (push_text, append_text_from_envelope, m)
        (append_delta-here
          (record c { assistant_item_ids = track_assistant_item json c.assistant_item_ids delta })
          delta id text i t)

  append_completed_item-streamed :
      (c : AssistantTextCollector) (end : Envelope Value) (id : String)
      → end.item_id ≡ some id
      → contains c.assistant_items_with_delta id ≡ true
      → append_completed_item json c end ≡ c
  unfolding append_completed_item
  append_completed_item-streamed c end id i h = elim (Bool-cases (is_assistant_item json c end)) [
    | inr other ↦ rw (append_completed_item, other) refl
    | inl ours ↦
        let streamed = ap (has_id c.assistant_items_with_delta) i ∙ h in
        rw (append_completed_item, ours, streamed) refl
  ]

  push_text_completed :
      (c : AssistantTextCollector) (end : Envelope Value) (id : String)
      → end.method ≡ some item_completed
      → end.item_id ≡ some id
      → contains c.assistant_items_with_delta id ≡ true
      → (push_text json c end).text ≡ c.text
  unfolding push_text append_text_from_envelope
  push_text_completed c end id m i h =
      let no_delta : has_method end item_agent_message_delta ≡ false = rw m refl in
      let done : has_method end item_completed ≡ true = rw m refl in
      rw
        (
          push_text,
          append_text_from_envelope,
          no_delta,
          done,
          append_completed_item-streamed
              (record c { assistant_item_ids = track_assistant_item json c.assistant_item_ids end })
              end id i h,
        )
        refl

  -- An item whose text was streamed is not added again when it is completed, whatever came in
  -- between: `item/completed` leaves the text as it is once a delta of the item was taken.
  pub push_text-streamed_item :
      (c : AssistantTextCollector) (delta end : Envelope Value) (between : List (Envelope Value))
      (id text : String)
      → delta.method ≡ some item_agent_message_delta
      → delta.item_id ≡ some id
      → (get "params" delta.json >>= λ p. get "delta" p >>= as_str) ≡ some text
      → end.method ≡ some item_completed
      → end.item_id ≡ some id
      → (push_text json (push_all (push_text json c delta) between) end).text
        ≡ (push_all (push_text json c delta) between).text
  push_text-streamed_item c delta end between id text dm di dt em ei =
      push_text_completed (push_all (push_text json c delta) between) end id em ei (
        push_all-keeps_delta (push_text json c delta) between id
          (push_text_delta c delta id text (rw dm refl) di dt))
