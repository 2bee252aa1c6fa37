-- ===== src/Admin/Approvals/Tests.antt =====
-- The approvals page at three queued actions, of which two look the same.
use agent_embassy.Prelude.{◌≡◌, refl, Option, none, true, false, List, [], ◌∷◌, map, ltb}
use agent_embassy.Prelude.Int.{ℤ, pos}
use agent_embassy.Prelude.{String}
use agent_embassy.Python.Json.{Json, Items, Fields, nil, cons, field, end, get_field, put_field}
use agent_embassy.Admin.Approvals.{
  part_of, key_of, keyed, mark, mark_each, count_all, counted, count_of, marked,
}
use agent_embassy.Admin.Approvals.Duplicates.{look_alikes, objects, marked-look_alikes}

abbrev action : String → String → Fields
action id client = field "action_id" (Json.str id) (
    field "client_id" (Json.str client)
      (field "item" (Json.str "flour") (field "amount_cents" (Json.int (pos 9000)) end)))

abbrev queued : Items
queued =
    cons (Json.obj (action "a1" "shop"))
      (cons (Json.obj (action "a2" "cafe")) (cons (Json.obj (action "a3" "shop")) nil))

abbrev no_float : String → Option ℤ
no_float _ = none

abbrev shown : List Fields
shown =
    put_field (action "a1" "shop") "duplicate" (Json.bool true)
    ∷ put_field (action "a2" "cafe") "duplicate" (Json.bool false)
    ∷ put_field (action "a3" "shop") "duplicate" (Json.bool true)
    ∷ []

marked-look_alikes_example :
    shown
    ≡ map
        (λ e. put_field e "duplicate" (Json.bool (ltb 1 (look_alikes no_float e (objects queued)))))
        (objects queued)
unfolding marked keyed key_of part_of mark mark_each count_all counted count_of get_field put_field
marked-look_alikes_example = marked-look_alikes no_float queued shown refl
