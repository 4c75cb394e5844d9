-- ===== src/Mail/Sender/Delivery.antt =====
-- What SendEmail has done when it succeeds and when it fails.
use go_bank.Common.{
  ◌≡◌, refl, ap, sym, ◌∙◌, Bool, true, false, not, ◌&&◌, List, [], ◌∷◌, ◌++◌, map, String, str_eq,
}
use go_bank.Common.Text.{trim_space}
use go_bank.Mail.{Message}
use go_bank.Mail.Sender.{
  GoMail, GmailSender, MailError, error_if, is_none, attach, any_not_sent, dial_and_send,
  send_email,
}
use go_bank.Db.Guards.{or_else_passed}
use go_bank.Db.World.{World, Action, ok, exchange, exchange_ok, >>=-eq-ok, pure-eq-ok, ◌>>=◌}

after_error_if :
    {A : Type 0} (b : Bool) (e : MailError) (k : Unit {0} → Action MailError A) (w w' : World)
    {a : A}
    → (error_if b e >>= k) w ≡ (ok a, w')
    → (b ≡ false) × (k tt w ≡ (ok a, w'))
after_error_if true e k w w' h = cc
after_error_if false e k w w' h = (refl, h)

attach_all :
    (lib : GoMail) (files : List String) (w w' : World) {paths : List String}
    → attach lib files w ≡ (ok paths, w')
    → (paths ≡ map trim_space files) × (w' ≡ w)
unfolding attach
attach_all lib [] w w' h = let (same, left) = pure-eq-ok [] _ w w' h in (sym same, sym left)
attach_all lib (file ∷ files) w w' h =
    let (_, h1) = after_error_if (str_eq (trim_space file) "") _ _ w w' h in
    let (_, h2) = after_error_if (not (lib.stat (trim_space file))) _ _ w w' h1 in
    let (paths, v, rest, done) = >>=-eq-ok (attach lib files) _ w w' h2 in
    let (same, left) = pure-eq-ok _ _ v w' done in
    let (trimmed, kept) = attach_all lib files w v rest in
    (sym same ∙ ap (λ ps. trim_space file ∷ ps) trimmed, sym left ∙ kept)

dial_and_send_ok :
    (m : Message) (w w' : World)
    → dial_and_send m w ≡ (ok tt, w')
    → (later : List Bool) × (w' ≡ record w { faults = later; outbox = w.outbox ++ m ∷ [] })
unfolding dial_and_send
dial_and_send_ok m w w' h =
    let (later, done) = exchange_ok _ w w' (or_else_passed (exchange _) any_not_sent w w' h) in
    (later, ap (λ r. r.1) (sym done))

module _ (lib : GoMail) (sender : GmailSender) (subject content : String)
    (to cc bcc attach_files : List String) where
  -- The message of a call.
  abbrev pub message : Message
  message = record {
    from_name = sender.name;
    from_address = sender.from_email_address;
    to = to;
    cc = cc;
    bcc = bcc;
    subject = subject;
    body = content;
    attachments = map trim_space attach_files;
  }

  -- SendEmail that succeeds had a recipient, and has done one thing: the SMTP server has taken one
  -- message, with the recipients, subject and text of the call and its paths trimmed.
  pub send_email_ok :
      (w w' : World)
      → send_email lib sender subject content to cc bcc attach_files w ≡ (ok tt, w')
      → (is_none to ≡ false)
        × (later : List Bool) × (w'
            ≡ record w { faults = later; outbox = w.outbox ++ message ∷ [] })
  unfolding send_email
  send_email_ok w w' h =
      let (some_to, h1) = after_error_if (is_none to) _ _ w w' h in
      let (_, h2) =
        after_error_if (not (lib.from_format sender.name sender.from_email_address)) _ _ w w' h1 in
      let (_, h3) = after_error_if (not (lib.to to)) _ _ w w' h2 in
      let (_, h4) = after_error_if (not (is_none cc) && not (lib.cc cc)) _ _ w w' h3 in
      let (_, h5) = after_error_if (not (is_none bcc) && not (lib.bcc bcc)) _ _ w w' h4 in
      let (paths, v, all, h6) = >>=-eq-ok (attach lib attach_files) _ w w' h5 in
      let (_, h7) =
        after_error_if (not (lib.new_client sender.from_email_address sender.from_email_password)) _
          _ v w' h6 in
      let (trimmed, kept) = attach_all lib attach_files w v all in
      let (later, done) = dial_and_send_ok _ v w' h7 in
      (
        some_to,
        later,
        done
            ∙ ap {A = World}
                (λ u. record u {
                  faults = later;
                  outbox = u.outbox ++ (record message { attachments = paths }) ∷ [];
                })
                kept
            ∙ ap
                (λ ps. record w {
                  faults = later;
                  outbox = w.outbox ++ (record message { attachments = ps }) ∷ [];
                })
                trimmed,
      )
