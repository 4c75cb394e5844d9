-- ===== src/Api/Agreement/Requests.antt =====
-- The binding tags of api let the same requests through as the validation of gapi, where they do.
use go_bank.Common.{
  ◌≡◌, ◌≢◌, refl, sym, ◌∙◌, Bool, true, false, not, ◌&&◌, ◌||◌, List, [], ◌∷◌, ◌++◌, String, str_eq,
  eq_iff, len, arith, ltb, Bool-cases, inl, inr, ◌⊎◌,
}
use go_bank.Common.Int.{ℤ, pos, ltb_ℤ, eq_ℤ, eq_ℤ-ne}
use go_bank.Util.Float.{Float64, is_nan, is_zero, is_negative, lt_zero}
use go_bank.Util.Currencies.{is_supported_currency, usd, eur, egp}
use go_bank.Val.Validation.{
  Check, fine, bad, error_if, validate_string, validate_id, validate_amount, validate_currency,
  validate_page_id, validate_page_size, ◌>>◌,
}
use go_bank.Gapi.Status.{field_violation}
use go_bank.Gapi.Accounts.{
  validate_id_request, validate_create_account_request, validate_list_accounts_request,
  validate_update_account_request,
}
use go_bank.Gapi.Transfers.{CreateTransferRequest, validate_create_transfer_request}
use go_bank.Api.Binding.{Validator, IsDocumented, valid_currency}
use go_bank.Api.Accounts.{
  CreateAccountRequest, IdRequest, ListAccountsRequest, UpdateAccountJson, create_account_tags,
  id_tags, list_accounts_tags, update_account_tags,
}
use go_bank.Api.Transfers.{TransferRequest, transfer_tags}
use go_bank.Api.Agreement.Rules.{is_empty}

abbrev is_fine : Check → Bool
is_fine fine = true
is_fine bad = false

is_empty-++ : (xs ys : List String) → is_empty (xs ++ ys) ≡ (is_empty xs && is_empty ys)
is_empty-++ [] ys = refl
is_empty-++ (x ∷ xs) ys = refl

is_empty-field : (field : String) (c : Check) → is_empty (field_violation field c) ≡ is_fine c
is_empty-field field fine = refl
is_empty-field field bad = refl

is_fine-error_if : (b : Bool) → is_fine (error_if b) ≡ not b
is_fine-error_if true = refl
is_fine-error_if false = refl

or_true : (a b : Bool) → (a || b) ≡ true → (a ≡ true) ⊎ (b ≡ true)
or_true true b h = inl refl
or_true false b h = inr h

one_of_three : (c : String) → is_supported_currency c ≡ true → (c ≡ usd) ⊎ (c ≡ eur) ⊎ (c ≡ egp)
unfolding is_supported_currency
one_of_three c h = elim (or_true (str_eq c usd || str_eq c eur) (str_eq c egp) h) [
  | inl k ↦ elim (or_true (str_eq c usd) (str_eq c eur) k) [
    | inl e ↦ inl ((eq_iff c usd).0 e)
    | inr e ↦ inr (inl ((eq_iff c eur).0 e))
  ]
  | inr e ↦ inr (inr ((eq_iff c egp).0 e))
]

unsupported : (b : Bool) (k : Check) → (b && false) ≡ is_fine (k >> bad)
unsupported true fine = refl
unsupported true bad = refl
unsupported false fine = refl
unsupported false bad = refl

right_true : (a b : Bool) → (a && b) ≡ true → b ≡ true
right_true true b h = h
right_true false b h = cc

with_true : (b : Bool) → (b && true) ≡ b
with_true true = refl
with_true false = refl

-- The request of the RPC with the fields of the REST request.
abbrev pub to_rpc : TransferRequest → CreateTransferRequest
to_rpc req = record {
  from_account_id = req.from_account_id;
  to_account_id = req.to_account_id;
  amount = req.amount;
  currency = req.currency;
}

not_itself : (a b : ℤ) → a ≢ b → (ltb_ℤ (pos 0) a && eq_ℤ a b) ≡ false
not_itself a b apart = rw (eq_ℤ-ne a b apart) (ground arith)

five_fields :
    (a b c d : Check) (e : Bool)
    → e ≡ false
    → is_empty (
        field_violation "from_account_id" a
        ++ (field_violation "to_account_id" b
            ++ (field_violation "amount" c
                ++ (field_violation "currency" d ++ field_violation "to_account_id" (error_if e)))))
      ≡ (is_fine a && is_fine b && is_fine c && is_fine d)
five_fields a b c d e h = rw h (go a b c d)
  where
    go :
        (a b c d : Check)
        → is_empty (
            field_violation "from_account_id" a
            ++ (field_violation "to_account_id" b
                ++ (field_violation "amount" c ++ (field_violation "currency" d ++ []))))
          ≡ (is_fine a && is_fine b && is_fine c && is_fine d)
    go bad b c d = refl
    go fine bad c d = refl
    go fine fine bad d = refl
    go fine fine fine bad = refl
    go fine fine fine fine = refl

module _ (v : Validator) (doc : IsDocumented v) where
  id_passes : (id : ℤ) → (v.required_int id && v.min_int (pos 1) id) ≡ is_fine (validate_id id)
  unfolding validate_id
  id_passes id = rw (doc.required_int id, doc.min_int (pos 1) id) (ground arith)

  -- A supported currency has three letters.
  currency_passes :
      (c : String) → (v.required_text c && valid_currency c) ≡ is_fine (validate_currency c)
  unfolding validate_currency validate_string valid_currency is_supported_currency
  currency_passes c = rw (doc.required_text c) (elim (Bool-cases (is_supported_currency c)) [
    | inl h ↦ elim (one_of_three c h) [
      | inl e ↦ rw e refl
      | inr (inl e) ↦ rw e refl
      | inr (inr e) ↦ rw e refl
    ]
    | inr n ↦ rw n (unsupported (not (str_eq c "")) (error_if (ltb (len c) 3 || ltb 3 (len c))))
  ])

  not_negative : (x : Float64) → v.gte_zero x ≡ true → lt_zero x ≡ false
  not_negative x h = go (is_nan x) (lt_zero x) (sym (doc.gte_zero x) ∙ h)
    where
      go : (n s : Bool) → (not n && not s) ≡ true → s ≡ false
      go n false e = refl
      go true true e = cc
      go false true e = cc

  page_passes :
      (page_id page_size : ℤ)
      → ((v.required_int page_id && v.min_int (pos 1) page_id)
          && (v.required_int page_size
              && v.min_int (pos 1) page_size
              && v.max_int (pos 100) page_size))
        ≡ (is_fine (validate_page_id page_id) && is_fine (validate_page_size page_size))
  unfolding validate_page_id validate_page_size
  page_passes page_id page_size =
      rw
        (
          doc.required_int page_id,
          doc.min_int (pos 1) page_id,
          doc.required_int page_size,
          doc.min_int (pos 1) page_size,
          doc.max_int (pos 100) page_size,
        )
        (ground arith)

  amount_passes :
      (x : Float64)
      → is_nan x ≡ false
      → (v.required_float x && v.gt_zero x) ≡ is_fine (validate_amount x)
  unfolding validate_amount
  amount_passes x number =
      rw (doc.required_float x, doc.gt_zero x, number) (go (is_negative x) (is_zero x))
    where
      go : (s z : Bool) → (not z && (true && not (s || z))) ≡ is_fine (error_if (s || z))
      go true true = refl
      go true false = refl
      go false true = refl
      go false false = refl

  pub id_tags_agree : (req : IdRequest) → id_tags v req ≡ is_empty (validate_id_request req.id)
  unfolding id_tags validate_id_request
  id_tags_agree req = id_passes req.id ∙ sym (is_empty-field "id" (validate_id req.id))

  pub update_tags_agree :
      (body : UpdateAccountJson)
      → update_account_tags v body ≡ true
      → (req : IdRequest)
      → id_tags v req ≡ is_empty (validate_update_account_request req.id body.balance)
  unfolding id_tags validate_update_account_request update_account_tags
  update_tags_agree body passes req =
      let negative =
        not_negative body.balance
          (right_true (v.required_float body.balance) (v.gte_zero body.balance) passes) in
      rw
        (
          negative,
          is_empty-++ (field_violation "id" (validate_id req.id)) [],
          is_empty-field "id" (validate_id req.id),
        )
        (id_passes req.id ∙ sym (with_true (is_fine (validate_id req.id))))

  pub create_account_tags_agree :
      (req : CreateAccountRequest)
      → create_account_tags v req ≡ is_empty (validate_create_account_request req.currency)
  unfolding create_account_tags validate_create_account_request
  create_account_tags_agree req =
      currency_passes req.currency
      ∙ sym (is_empty-field "currency" (validate_currency req.currency))

  pub list_accounts_tags_agree :
      (req : ListAccountsRequest)
      → list_accounts_tags v req
        ≡ is_empty (validate_list_accounts_request req.page_id req.page_size)
  unfolding list_accounts_tags validate_list_accounts_request
  list_accounts_tags_agree req =
      rw
        (
          is_empty-++ (field_violation "page_id" (validate_page_id req.page_id)),
          is_empty-field "page_id" (validate_page_id req.page_id),
          is_empty-field "page_size" (validate_page_size req.page_size),
        )
        (page_passes req.page_id req.page_size)

  -- The two differ on a transfer from an account to itself, which api lets through, and on an
  -- amount that is not a number, which gapi does.
  pub transfer_tags_agree :
      (req : TransferRequest)
      → req.from_account_id ≢ req.to_account_id
      → is_nan req.amount ≡ false
      → transfer_tags v req ≡ is_empty (validate_create_transfer_request (to_rpc req))
  unfolding transfer_tags validate_create_transfer_request
  transfer_tags_agree req apart number =
      rw
        (
          id_passes req.from_account_id,
          id_passes req.to_account_id,
          amount_passes req.amount number,
          currency_passes req.currency,
        )
        (sym (
          five_fields (validate_id req.from_account_id) (validate_id req.to_account_id)
            (validate_amount req.amount) (validate_currency req.currency) _ (not_itself _ _ apart)))
