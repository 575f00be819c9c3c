-- ===== src/Examples/Users.antt =====
-- Examples for the theorems on the accounts of other users and on the mails.
use python_diplom.Base.{refl, ◌≡◌, none, some, [], ◌∷◌}
use python_diplom.Exn.{ok}
use python_diplom.Models.{user_model}
use python_diplom.Accounts.{error}
use python_diplom.Registration.{login}
use python_diplom.UserViews.{patch_user}
use python_diplom.Examples.Accounts.{one_word}
use python_diplom.UserViews.Rights.{deactivate, deactivated_by_anyone}
use python_diplom.Mails.{
  Mailer, Mail, send_order_confirmation_email, confirmation_of, compose, line_of, lines_of,
}
use python_diplom.Mails.Delivery.{IsForClient, confirmation-IsForClient}
use python_diplom.Examples.{shop, anna, boris, plain_django, ascii}

-- Anna, a client, switches off the account of Boris.
deactivated_by_anyone_example :
    let db' = (patch_user (λ url. url) "AAAAAAAA" anna 2 deactivate shop).1 in
    login one_word (some "boris") (some "secret-word") db'
    ≡ (ok (record { status = 401; body = error "Invalid credentials" }), db')
deactivated_by_anyone_example =
    deactivated_by_anyone one_word (λ url. url) "AAAAAAAA" anna boris "secret-word" shop refl refl
      refl refl

-- Templates whose text is their name.
instance abbrev post : Mailer
post = record {
  default_from_email = "webmaster@localhost";
  email_host_user = "";
  render_to_string = λ name context. ok name;
  send_mail = λ mail. none;
  exn_text = λ e. "";
  set_order = λ texts. texts;
}

abbrev to_anna : Mail
to_anna = record {
  subject = "Подтверждение заказа #ORDAAAAAAAAAA";
  message = "emails/order_confirmation.txt";
  from_email = "webmaster@localhost";
  recipient_list = "anna@example.com" ∷ [];
  html_message = "emails/order_confirmation.html";
}

sent_to_anna : (send_order_confirmation_email 11 shop).1 ≡ some to_anna
unfolding send_order_confirmation_email confirmation_of compose line_of lines_of
sent_to_anna = refl

confirmation-IsForClient_example : IsForClient 11 shop to_anna
confirmation-IsForClient_example = confirmation-IsForClient 11 shop to_anna sent_to_anna
