-- ===== src/Admin/Approvals.antt =====
-- admin/main.py: the approvals page with its marks on actions that look the same, and the two
-- decisions. What a template shows is represented by what it is given.
pub mod Duplicates
mod Tests
use agent_embassy.Prelude.{
  ℕ, suc, ◌+◌, String, Bool, true, false, ◌&&◌, Option, none, some, List, [], ◌∷◌, ltb, ◌==◌,
  if◌then◌else◌, str_eq,
}
use agent_embassy.Prelude.Int.{ℤ, pos, negsuc}
use agent_embassy.Python.Json.{Json, Items, Fields, nil, cons, end, get_field, put_field}
use agent_embassy.Python.Attempt
use agent_embassy.Python.Attempt.{
  Attempt, value, exception, fields_of, fields_or_empty, items_or_empty,
}
use agent_embassy.Admin.Http.{Action, pure, attempt, ◌>>=◌}
use agent_embassy.Admin.Tier3
use agent_embassy.Admin.Tier3.{list_pending, approve_action, reject_action}

-- A value, which is no NaN, as a part of a dict's key: Python takes `True`, `1` and `1.0` for the same key.
pub data Part : Type 0 where
  nothing : Part
  whole : ℤ → Part
  fraction text : String → Part

-- `(client_id, item, amount_cents)` of an entry
pub record Key : Type 0 where
  pub client_id : Part
  pub item : Part
  pub amount_cents : Part

-- The messages of the page.
pub data Message : Type 0 where
  executed_via : (channel order_number : Json) → Message
  rejected : Message

pub record Page : Type 0 where
  pub status : ℕ
  pub entries : List Fields
  pub message : Option Message
  pub error : Option Tier3.Problem

abbrev pub same_int : ℤ → ℤ → Bool
same_int (pos m) (pos n) = m == n
same_int (negsuc m) (negsuc n) = m == n
same_int (pos m) (negsuc n) = false
same_int (negsuc m) (pos n) = false

abbrev pub same_part : Part → Part → Bool
same_part nothing nothing = true
same_part (whole m) (whole n) = same_int m n
same_part (fraction s) (fraction t) = str_eq s t
same_part (text s) (text t) = str_eq s t
same_part _ _ = false

abbrev pub same_key : Key → Key → Bool
same_key a b =
    same_part a.client_id b.client_id
    && (same_part a.item b.item && same_part a.amount_cents b.amount_cents)

-- `counts`, a dict in insertion order, and `counts[key] = counts.get(key, 0) + 1`.
abbrev pub Counts : Type 0
Counts = List (Key × ℕ)

unfoldable pub count_of : Counts → Key → ℕ
count_of [] k = 0
count_of ((j, n) ∷ counts) k = if same_key j k then n else count_of counts k

unfoldable pub counted : Counts → Key → Counts
counted [] k = (k, 1) ∷ []
counted ((j, n) ∷ counts) k =
    let rest = counted counts k in if same_key j k then (j, n + 1) ∷ counts else (j, n) ∷ rest

-- The first loop.
unfoldable pub count_all : Counts → List (Fields × Key) → Counts
count_all counts [] = counts
count_all counts ((e, k) ∷ rest) = count_all (counted counts k) rest

-- The second loop.
unfoldable pub mark_each : Counts → List (Fields × Key) → List Fields
mark_each counts [] = []
mark_each counts ((e, k) ∷ rest) =
    put_field e "duplicate" (Json.bool (ltb 1 (count_of counts k))) ∷ mark_each counts rest

unfoldable pub mark : List (Fields × Key) → List Fields
mark found = mark_each (count_all [] found) found

-- `integral` is the value of a float that is a whole number, by its text.
module _ (integral : String → Option ℤ) where
  abbrev pub float_part : String → Option ℤ → Part
  float_part s none = fraction s
  float_part s (some n) = whole n

  -- A part of a key; a list and a dict cannot be one.
  unfoldable pub part_of : Option Json → Attempt Part
  part_of none = value nothing
  part_of (some Json.null) = value nothing
  part_of (some (Json.bool true)) = value (whole (pos 1))
  part_of (some (Json.bool false)) = value (whole (pos 0))
  part_of (some (Json.int n)) = value (whole n)
  part_of (some (Json.float s)) = value (float_part s (integral s))
  part_of (some (Json.str s)) = value (text s)
  part_of (some (Json.arr _)) = exception "TypeError"
  part_of (some (Json.obj _)) = exception "TypeError"

  unfoldable pub key_of : Fields → Attempt Key
  key_of e = Attempt.◌>>=◌ (part_of (get_field e "client_id")) λ client_id.
      Attempt.◌>>=◌ (part_of (get_field e "item")) λ item.
        Attempt.◌>>=◌ (part_of (get_field e "amount_cents")) λ amount_cents.
          value (record { client_id = client_id; item = item; amount_cents = amount_cents })

  -- The entries with their keys, as the first loop makes them.
  unfoldable pub keyed : Items → Attempt (List (Fields × Key))
  keyed nil = value []
  keyed (cons e rest) = Attempt.◌>>=◌ (fields_of e) λ fields.
      Attempt.◌>>=◌ (key_of fields)
        λ key. Attempt.◌>>=◌ (keyed rest) λ others. value ((fields, key) ∷ others)

  -- The template's entries, from `result.entries`.
  unfoldable pub marked : Json → Attempt (List Fields)
  marked entries =
      Attempt.◌>>=◌ (items_or_empty (some entries))
        λ items. Attempt.◌>>=◌ (keyed items) λ found. value (mark found)

  abbrev pub first_error : Option Tier3.Problem → Tier3.Problem → Tier3.Problem
  first_error none listing = listing
  first_error (some e) listing = e

  unfoldable pub render : Option Message → Option Tier3.Problem → ℕ → Tier3.Result → Attempt Page
  render message error status (Tier3.done entries) =
      Attempt.◌>>=◌ (marked entries)
        λ rows. value (record { status = status; entries = rows; message = message; error = error })
  render message error status (Tier3.error listing) = value (record {
    status = 502;
    entries = [];
    message = message;
    error = some (first_error error listing);
  })

  -- `_render_approvals`; `quote` is a parameter that all functions of admin/tier3_client.py take.
  unfoldable pub render_approvals :
      (String → String) → Option Message → Option Tier3.Problem → ℕ → Action Page
  render_approvals quote message error status =
      list_pending quote >>= λ result. attempt (render message error status result)

  -- `approvals`
  unfoldable pub approvals : (String → String) → Action Page
  approvals quote = render_approvals quote none none 200

  abbrev pub or_blank : Option Json → Json
  or_blank none = Json.str ""
  or_blank (some v) = v

  -- `result.outcome or {}`
  abbrev pub outcome_fields : Json → Attempt Fields
  outcome_fields v = fields_or_empty (some v)

  unfoldable pub after_approve : (String → String) → Tier3.Result → Action Page
  after_approve quote (Tier3.done outcome) = attempt (outcome_fields outcome) >>= λ fields.
      render_approvals quote
        (some (
          executed_via (or_blank (get_field fields "channel"))
            (or_blank (get_field fields "orderNumber"))))
        none 200
  after_approve quote (Tier3.error e) = render_approvals quote none (some e) 502

  -- `approvals_approve`
  unfoldable pub approvals_approve : (String → String) → String → Action Page
  approvals_approve quote action_id = approve_action quote action_id >>= after_approve quote

  unfoldable pub after_reject : (String → String) → Tier3.Result → Action Page
  after_reject quote (Tier3.done outcome) = render_approvals quote (some rejected) none 200
  after_reject quote (Tier3.error e) = render_approvals quote none (some e) 502

  -- `approvals_reject`
  unfoldable pub approvals_reject : (String → String) → String → Action Page
  approvals_reject quote action_id = reject_action quote action_id >>= after_reject quote
