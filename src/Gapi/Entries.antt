-- ===== src/Gapi/Entries.antt =====
-- gapi/rpc_entry.go.
use go_bank.Common.{◌||◌, List, ◌++◌, map, String, ℕ, Option}
use go_bank.Common.Int.{ℤ, pos, ltb_ℤ}
use go_bank.Val.Validation.{Check, error_if, validate_page_id}
use go_bank.Db.World.{pure, or_else, ◌>>=◌, ◌>>◌}
use go_bank.Db.Query.Entries.{ListActivityEntriesRow, list_activity_entries}
use go_bank.Gapi.Status.{Rpc, field_violation, reject}
use go_bank.Gapi.Server.{Context, caller}
use go_bank.Gapi.Accounts.{any_internal, page_offset}

-- pb.ActivityEntry; the amount stays in cents.
pub record ActivityEntry : Type 0 where
  pub id : ℤ
  pub account_id : ℤ
  pub amount : ℤ
  pub currency : String
  pub created_at : ℕ
  pub transfer_id : Option ℤ
  pub counterpart_account_id : Option ℤ
  pub counterpart_owner : Option String
  pub counterpart_currency : Option String

unfoldable pub convert_activity_entry : ListActivityEntriesRow → ActivityEntry
convert_activity_entry row = record {
  id = row.id;
  account_id = row.account_id;
  amount = row.amount;
  currency = row.currency;
  created_at = row.created_at;
  transfer_id = row.transfer_id;
  counterpart_account_id = row.counterpart_account_id;
  counterpart_owner = row.counterpart_owner;
  counterpart_currency = row.counterpart_currency;
}

unfoldable pub validate_entries_page_size : ℤ → Check
validate_entries_page_size page_size =
    error_if (ltb_ℤ page_size (pos 1) || ltb_ℤ (pos 50) page_size)

unfoldable pub validate_list_entries_request : (page_id page_size : ℤ) → List String
validate_list_entries_request page_id page_size =
    field_violation "page_id" (validate_page_id page_id)
    ++ field_violation "page_size" (validate_entries_page_size page_size)

unfoldable pub list_entries : Context → (page_id page_size : ℤ) → Rpc (List ActivityEntry)
list_entries ctx page_id page_size = do
  reject (validate_list_entries_request page_id page_size)
  auth_payload ← caller ctx
  rows ←
      or_else
        (list_activity_entries (record {
          owner = auth_payload.username;
          offset_arg = page_offset page_id page_size;
          limit_arg = page_size;
        }))
        any_internal
  pure (map convert_activity_entry rows)
