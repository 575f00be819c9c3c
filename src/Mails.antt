-- ===== src/Mails.antt =====
-- The two mails of a new order: `send_order_confirmation_email` and `send_invoice_email` of
-- orders/backend/tasks.py. The template engine, the mail server and the settings are parameters.
pub mod Delivery
use Prim.Native.String
use python_diplom.Base.{
  ℕ, String, Bool, Option, none, some, List, [], ◌∷◌, any, map, str_eq, if◌then◌else◌,
}
use python_diplom.Base.Int.{ℤ}
use python_diplom.Exn.{Exn, Result, ok, err, other_error, or_raise, ◌>>=◌}
use python_diplom.Text.{show}
use python_diplom.Table.{get}
use python_diplom.Models.{
  Db, User, Supplier, Product, Order, OrderItem, user_model, supplier_model, product_model,
  order_model,
}
use python_diplom.Orders.{items_of}

-- One entry of `items_summary`; the confirmation leaves `sku` out.
pub record Line : Type 0 where
  pub name : String
  pub sku : Option String
  pub quantity : ℕ
  pub price : ℤ
  pub subtotal : ℤ
  pub supplier : String

-- The context of a template; the confirmation leaves `suppliers` out.
pub record Context : Type 0 where
  pub order : Order
  pub items : List Line
  pub suppliers : Option String
  pub total_amount : ℤ

pub record Mail : Type 0 where
  pub subject : String
  pub message : String
  pub from_email : String
  pub recipient_list : List String
  pub html_message : String

pub record Mailer : Type 0 where
  pub default_from_email : String
  pub email_host_user : String
  pub render_to_string : String → Context → Result String
  -- `none` when the server has taken the mail
  pub send_mail : Mail → Option Exn
  pub exn_text : Exn → String
  -- the order in which Python goes through a set of texts
  pub set_order : List String → List String

-- A foreign key always finds its row, so this does not raise.
abbrev pub related {ℓ} : {A : Type ℓ} → Option A → Result A
related row = or_raise row (other_error "DoesNotExist")

unfoldable pub line_of : Bool → OrderItem → Db → Result Line
line_of with_sku i db = do
  p ← related (get i.product db.products)
  s ← related (get i.supplier db.suppliers)
  ok (record {
    name = p.name;
    sku = if with_sku then some p.sku else none;
    quantity = i.quantity;
    price = i.price;
    subtotal = i.subtotal;
    supplier = s.company_name;
  })

-- the loop over `order.items.all()`
unfoldable pub lines_of : Bool → List OrderItem → Db → Result (List Line)
lines_of with_sku [] db = ok []
lines_of with_sku (i ∷ rest) db = do
  line ← line_of with_sku i db
  lines ← lines_of with_sku rest db
  ok (line ∷ lines)

-- `suppliers`, a set
abbrev pub distinct_texts : List String → List String
distinct_texts [] = []
distinct_texts (s ∷ ss) =
    let rest = distinct_texts ss in if any (λ t. str_eq t s) rest then rest else s ∷ rest

-- `', '.join(…)`
abbrev pub join_commas : List String → String
join_commas [] = ""
join_commas (s ∷ []) = s
join_commas (s ∷ ss) = String.◌++◌ s (String.◌++◌ ", " (join_commas ss))

-- What a task returns, and the mail that the server has taken.
abbrev pub Outcome : Type 0
Outcome = String × Option Mail

module _ ⦃m : Mailer⦄ where
  abbrev pub failed : String → Exn → Outcome
  failed prefix e = (String.◌++◌ prefix (m.exn_text e), none)

  -- `send_mail(…)` and the `return` after it
  abbrev pub posted : String → String → Mail → Outcome
  posted success prefix mail = elim (m.send_mail mail) [
    | none ↦ (success, some mail)
    | some e ↦ failed prefix e
  ]

  -- both templates, and the mail
  unfoldable pub compose : String → String → String → String → Context → Result Mail
  compose html plain subject recipient context = do
    html_message ← m.render_to_string html context
    plain_message ← m.render_to_string plain context
    ok (record {
      subject = subject;
      message = plain_message;
      from_email = m.default_from_email;
      recipient_list = recipient ∷ [];
      html_message = html_message;
    })

  unfoldable pub confirmation_of : Order → Db → Result Mail
  confirmation_of order db = do
    lines ← lines_of Bool.false (items_of order.id db) db
    client ← related (get order.client db.users)
    compose "emails/order_confirmation.html" "emails/order_confirmation.txt"
        (String.◌++◌ "Подтверждение заказа #" order.order_number) client.email
        (record {
          order = order;
          items = lines;
          suppliers = none;
          total_amount = order.total_amount;
        })

  -- `send_order_confirmation_email`
  unfoldable pub send_order_confirmation_email : ℕ → Db → Outcome
  send_order_confirmation_email order_id db = elim (get order_id db.orders) [
    | none ↦ (String.◌++◌ "Order " (String.◌++◌ (show order_id) " not found"), none)
    | some order ↦ elim (confirmation_of order db) [
      | err e ↦ failed "Error sending email: " e
      | ok mail ↦
          posted (String.◌++◌ "Email confirmation sent to " (join_commas mail.recipient_list))
            "Error sending email: " mail
    ]
  ]

  unfoldable pub invoice_of : Order → Db → Result Mail
  invoice_of order db = do
    lines ← lines_of Bool.true (items_of order.id db) db
    compose "emails/invoice.html" "emails/invoice.txt"
        (String.◌++◌ "Новая накладная - Заказ #" order.order_number) m.email_host_user
        (record {
          order = order;
          items = lines;
          suppliers =
              some
                (join_commas (m.set_order (distinct_texts (map (λ (l : Line). l.supplier) lines))));
          total_amount = order.total_amount;
        })

  -- `send_invoice_email`
  unfoldable pub send_invoice_email : ℕ → Db → Outcome
  send_invoice_email order_id db = elim (get order_id db.orders) [
    | none ↦ (String.◌++◌ "Order " (String.◌++◌ (show order_id) " not found"), none)
    | some order ↦ elim (invoice_of order db) [
      | err e ↦ failed "Error sending invoice: " e
      | ok mail ↦
          posted (String.◌++◌ "Invoice sent to admin " m.email_host_user) "Error sending invoice: "
            mail
    ]
  ]
