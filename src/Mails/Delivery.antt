-- ===== src/Mails/Delivery.antt =====
-- Who gets the mails of an order, and when nobody does.
use python_diplom.Base.{
  some-injective, none-ne-some, ◌≢◌, ℕ, String, true, false, Option, Option-cases, none, some, [],
  ◌∷◌, inl, inr, ◌≡◌, refl, sym, ap, ◌∙◌,
}
use python_diplom.Mails.{
  join_commas, Mailer, Mail, Context, related, lines_of, compose, confirmation_of, invoice_of,
  posted, send_order_confirmation_email, send_invoice_email,
}
use mathlib.Core.Path.{subst}
use python_diplom.Exn.{Exn, ok, err, Result-cases, >>=-eq-ok, err-ne-ok, ok-injective}
use python_diplom.Table.{get}
use python_diplom.Models.{Db, User, Order, user_model, order_model}
use python_diplom.Orders.{items_of}
use Prim.Native.String

related-ok : {A : Type 0} (row : Option A) (a : A) → related row ≡ ok a → row ≡ some a
related-ok none a h = absurd (err-ne-ok h)
related-ok (some b) a h = ap some (ok-injective h)

module _ ⦃m : Mailer⦄ where
  compose-recipient :
      (html plain subject recipient : String) (c : Context) (mail : Mail)
      → compose html plain subject recipient c ≡ ok mail
      → mail.recipient_list ≡ recipient ∷ []
  unfolding compose
  compose-recipient html plain subject recipient c mail h =
      let (h₁, e₁, r₁) = >>=-eq-ok (m.render_to_string html c) _ h in
      let (p₁, e₂, r₂) = >>=-eq-ok (m.render_to_string plain c) _ r₁ in
      ap (λ x. x.recipient_list) (sym (ok-injective r₂))

  -- The client of the order, as it is stored.
  pub record IsForClient (id : ℕ) (db : Db) (mail : Mail) : Type 0 where
    pub order : Order
    pub client : User
    pub stored : get id db.orders ≡ some order
    pub registered : get order.client db.users ≡ some client
    pub recipient : mail.recipient_list ≡ client.email ∷ []
    pub taken : m.send_mail mail ≡ none

  posted-taken :
      (success prefix : String) (mail : Mail) (sent : Mail)
      → (posted success prefix mail).1 ≡ some sent
      → (mail ≡ sent) × (m.send_mail mail ≡ none)
  posted-taken success prefix mail sent h = elim (Option-cases (m.send_mail mail)) [
    | inl e ↦ (some-injective (rw (e, posted) at h), e)
    | inr (x, e) ↦ absurd (none-ne-some (rw (e, posted) at h))
  ]

  confirmation_of-client :
      (o : Order) (db : Db) (mail : Mail)
      → confirmation_of o db ≡ ok mail
      → (client : User) × (get o.client db.users ≡ some client)
        × (mail.recipient_list ≡ client.email ∷ [])
  unfolding confirmation_of
  confirmation_of-client o db mail h =
      let (lines, e₁, r₁) = >>=-eq-ok (lines_of false (items_of o.id db) db) _ h in
      let (client, e₂, r₂) = >>=-eq-ok (related (get o.client db.users)) _ r₁ in
      (
        client,
        related-ok (get o.client db.users) client e₂,
        compose-recipient "emails/order_confirmation.html" "emails/order_confirmation.txt" _
            client.email _ mail r₂,
      )

  compose-fails :
      (html plain subject recipient : String) (c : Context) (mail : Mail)
      → ((name : String) (c : Context) → (e : Exn) × (m.render_to_string name c ≡ err e))
      → compose html plain subject recipient c ≢ ok mail
  unfolding compose
  compose-fails html plain subject recipient c mail missing h =
      let (e, raised) = missing html c in
      let (text, rendered, r) = >>=-eq-ok (m.render_to_string html c) _ h in
      err-ne-ok (sym raised ∙ rendered)

  confirmation_of-fails :
      (o : Order) (db : Db) (mail : Mail)
      → ((name : String) (c : Context) → (e : Exn) × (m.render_to_string name c ≡ err e))
      → confirmation_of o db ≢ ok mail
  unfolding confirmation_of
  confirmation_of-fails o db mail missing h =
      let (lines, e₁, r₁) = >>=-eq-ok (lines_of false (items_of o.id db) db) _ h in
      let (client, e₂, r₂) = >>=-eq-ok (related (get o.client db.users)) _ r₁ in
      compose-fails _ _ _ _ _ mail missing r₂

  invoice_of-fails :
      (o : Order) (db : Db) (mail : Mail)
      → ((name : String) (c : Context) → (e : Exn) × (m.render_to_string name c ≡ err e))
      → invoice_of o db ≢ ok mail
  unfolding invoice_of
  invoice_of-fails o db mail missing h =
      let (lines, e₁, r₁) = >>=-eq-ok (lines_of true (items_of o.id db) db) _ h in
      compose-fails _ _ _ _ _ mail missing r₁

  -- A confirmation that the mail server has taken went to the address of the client of the stored
  -- order, and to nobody else.
  pub confirmation-IsForClient :
      (id : ℕ) (db : Db) (mail : Mail)
      → (send_order_confirmation_email id db).1 ≡ some mail
      → IsForClient id db mail
  unfolding send_order_confirmation_email confirmation_of
  confirmation-IsForClient id db mail h = elim (Option-cases (get id db.orders)) [
    | inl e ↦ absurd (none-ne-some (rw (e, send_order_confirmation_email) at h))
    | inr (o, e) ↦ elim (Result-cases (confirmation_of o db)) [
      | inr (x, k) ↦ absurd (none-ne-some (rw (e, send_order_confirmation_email, k) at h))
      | inl (composed, k) ↦
          let (same, taken) =
            posted-taken
              (String.◌++◌ "Email confirmation sent to " (join_commas composed.recipient_list))
              "Error sending email: " composed mail
              (rw (e, send_order_confirmation_email, k) at h) in
          let (client, registered, recipient) = confirmation_of-client o db composed k in
          record {
            order = o;
            client = client;
            stored = e;
            registered = registered;
            recipient = ap (λ x. x.recipient_list) (sym same) ∙ recipient;
            taken = subst (λ x. m.send_mail x ≡ none) same taken;
          }
    ]
  ]

  -- When no template can be rendered, neither mail of an order is sent.
  pub no_template_no_mail :
      (id : ℕ) (db : Db)
      → ((name : String) (c : Context) → (e : Exn) × (m.render_to_string name c ≡ err e))
      → ((send_order_confirmation_email id db).1 ≡ none) × ((send_invoice_email id db).1 ≡ none)
  unfolding send_order_confirmation_email send_invoice_email
  no_template_no_mail id db missing = (
    elim (Option-cases (get id db.orders)) [
      | inl e ↦ rw (e, send_order_confirmation_email) refl
      | inr (o, e) ↦ elim (Result-cases (confirmation_of o db)) [
        | inr (x, k) ↦ rw (e, send_order_confirmation_email, k) refl
        | inl (composed, k) ↦ absurd (confirmation_of-fails o db composed missing k)
      ]
    ],
    elim (Option-cases (get id db.orders)) [
      | inl e ↦ rw (e, send_invoice_email) refl
      | inr (o, e) ↦ elim (Result-cases (invoice_of o db)) [
        | inr (x, k) ↦ rw (e, send_invoice_email, k) refl
        | inl (composed, k) ↦ absurd (invoice_of-fails o db composed missing k)
      ]
    ],
  )
