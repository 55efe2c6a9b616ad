-- ===== src/Responses/Event.antt =====
-- responses.go: the events of a streamed Responses reply, and a client that checks them.
use qoder_model_gateway.Base.{
  ℕ, suc, ◌+◌, Bool, true, false, ◌&&◌, Option, none, some, List, [], ◌∷◌, ◌++◌, ◌==◌,
  if◌then◌else◌, ◌>>=◌, is_nil, Text, text_eq,
}
use qoder_model_gateway.Base.Int.{ℤ}
use qoder_model_gateway.Upstream.{Account}

pub data Kind : Type 0 where
  reasoning message function_call : Kind

abbrev pub same_kind : Kind → Kind → Bool
same_kind reasoning reasoning = true
same_kind message message = true
same_kind function_call function_call = true
same_kind _ _ = false

-- An output item with its id; a function call has its call id and its name, too. The last text is the
-- summary, the content or the arguments.
pub data Item : Type 0 where
  reasoning_item message_item : Text → Text → Item
  call_item : Text → Text → Text → Text → Item

abbrev pub item_id : Item → Text
item_id (reasoning_item i t) = i
item_id (message_item i t) = i
item_id (call_item i c n t) = i

abbrev pub item_kind : Item → Kind
item_kind (reasoning_item i t) = reasoning
item_kind (message_item i t) = message
item_kind (call_item i c n t) = function_call

abbrev pub item_text : Item → Text
item_text (reasoning_item i t) = t
item_text (message_item i t) = t
item_text (call_item i c n t) = t

-- The response of the last event. The output is `none` for the `null` that a nil slice becomes.
pub record Summary : Type 0 where
  pub output : Option (List Item)
  pub incomplete : Bool
  pub account : Account
  pub total_tokens : ℤ

-- The type of an event with what its payload carries: the output index, the item's id, the text. The
-- kind of an item selects between the names of its events.
pub data Body : Type 0 where
  created in_progress : Text → Text → Body
  item_added : ℕ → Item → Body
  part_added : ℕ → Text → Kind → Body
  delta : ℕ → Text → Kind → Text → Body
  text_done part_done : ℕ → Text → Kind → Text → Body
  item_done : ℕ → Item → Body
  completed : Summary → Body
  failed : Text → Body

pub record Event : Type 0 where
  pub sequence_number : ℕ
  pub body : Body

-- Where a client stands: before the first event, between the items, and inside an item with its
-- index, kind, id and the text that its deltas gave so far.
pub data Phase : Type 0 where
  silent opened ended : Phase
  between : ℕ → Phase
  added inside told parted : ℕ → Kind → Text → Text → Phase

-- The announced item is still empty, and only a call goes without a part.
abbrev pub opening : ℕ → Item → Phase
opening n (call_item i c m t) = inside n function_call i t
opening n (reasoning_item i t) = added n reasoning i t
opening n (message_item i t) = added n message i t

abbrev pub same_item : ℕ → Text → Kind → ℕ → Text → Kind → Bool
same_item n i k m j l = (n == m) && (text_eq i j && same_kind k l)

abbrev pub item_matches : ℕ → Item → ℕ → Kind → Text → Text → Bool
item_matches m it n k i t =
    same_item m (item_id it) (item_kind it) n i k && text_eq (item_text it) t

unfoldable pub observe : Phase → Body → Option Phase
observe silent (created i m) = some opened
observe opened (in_progress i m) = some (between 0)
observe (between n) (item_added m it) =
    if (m == n) && is_nil (item_text it) then some (opening n it) else none
observe (added n k i t) (part_added m j l) =
    if same_item m j l n i k then some (inside n k i t) else none
observe (inside n k i t) (delta m j l d) =
    if same_item m j l n i k then some (inside n k i (t ++ d)) else none
observe (inside n k i t) (text_done m j l d) =
    if same_item m j l n i k && text_eq d t then some (told n k i t) else none
observe (told n k i t) (part_done m j l d) =
    if same_item m j l n i k && text_eq d t then some (parted n k i t) else none
observe (told n function_call i t) (item_done m it) =
    if item_matches m it n function_call i t then some (between (n + 1)) else none
observe (parted n k i t) (item_done m it) =
    if item_matches m it n k i t then some (between (n + 1)) else none
observe (between n) (completed r) = some ended
observe (between n) (failed m) = some ended
observe (inside n k i t) (failed m) = some ended
observe _ _ = none

-- What a client has: the last sequence number, its phase, and the finished items.
pub record Seen : Type 0 where
  pub count : ℕ
  pub phase : Phase
  pub items : List Item

abbrev pub nothing_seen : Seen
nothing_seen = record { count = 0; phase = silent; items = [] }

abbrev pub take_item : Body → List Item → List Item
take_item (item_done n it) its = its ++ it ∷ []
take_item _ its = its

unfoldable pub observe_event : Seen → Event → Option Seen
unfolding observe
observe_event c e =
    if e.sequence_number == suc c.count
    then (observe c.phase e.body >>= λ p.
        some (record { count = e.sequence_number; phase = p; items = take_item e.body c.items }))
    else none

unfoldable pub observe_all : Seen → List Event → Option Seen
observe_all c [] = some c
observe_all c (e ∷ es) = observe_event c e >>= λ d. observe_all d es
