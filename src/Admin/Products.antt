-- ===== src/Admin/Products.antt =====
-- internal/admin/admin.go: the products and the rollouts of their firmware.
use minnal_labs.Base.{
  ℕ, String, ◌||◌, Option, none, some, List, [], ◌∷◌, ltb, leb, ◌==◌, ◌^◌, str_eq, if◌then◌else◌,
}
use minnal_labs.Base.Int.{ℤ, pos, negsuc}
use minnal_labs.Base.Rows.{first_where, update_where}
use minnal_labs.Base.Rows.Order.{sort_by}
use minnal_labs.Base.Text.{contains}
use minnal_labs.Base.Text.Decimal.{parse_uint}
use minnal_labs.Base.Exec.{Error, Outcome, Exec, pure, fail, or_else, ◌>>◌}
use minnal_labs.Models.{Product, effective_rollout_percentage, effective_rollout_interval_minutes}
use minnal_labs.World.{World, Tables, query, query_first, execute, call, errorf}
use minnal_labs.Http.{success, Handler, refuse, or_refuse, present, checked}
use minnal_labs.Oauth.Session.{SessionUser}
use minnal_labs.Ota.Rollout.{Created, create_rollout}
use minnal_labs.Ota.Listing.{RolloutSummary, list_rollouts_for_product}
use minnal_labs.Enrollment.Firmware.{firmware_url, firmware_md5_url}
use minnal_labs.Admin.{normalize_batch_interval_minutes}

pub record ProductItem : Type 0 where
  pub product_id : ℕ
  pub name : String
  pub firmware_version : String
  pub firmware_url : String
  pub firmware_md5_url : String
  pub rollout_percentage : ℕ
  pub rollout_interval_minutes : ℕ
  pub firmware_uploaded_at : Option ℕ

-- `effectiveFirmwareURL` and `effectiveFirmwareMD5URL` are the functions of the same content in
-- internal/enrollment
unfoldable pub product_item : Product → ProductItem
product_item p = record {
  product_id = p.id;
  name = p.name;
  firmware_version = p.firmware_version;
  firmware_url = firmware_url p;
  firmware_md5_url = firmware_md5_url p;
  rollout_percentage = effective_rollout_percentage p;
  rollout_interval_minutes = effective_rollout_interval_minutes p;
  firmware_uploaded_at = p.firmware_uploaded_at;
}

unfoldable pub product_items : List Product → List ProductItem
unfolding product_item
product_items [] = []
product_items (p ∷ ps) = product_item p ∷ product_items ps

-- `listProducts`
unfoldable pub list_products : Handler (List ProductItem)
unfolding query sort_by product_items
list_products =
    or_refuse (query (λ t. sort_by (λ a b. leb a.id b.id) t.products)) 500 "failed to load products"
      (λ ps. pure (success 200 (product_items ps)))

-- `listProductRollouts`
unfoldable pub list_product_rollouts : String → Handler (List RolloutSummary)
unfolding list_rollouts_for_product parse_uint
list_product_rollouts product_param =
    present (parse_uint product_param) 400 "invalid product id" (λ id.
      or_refuse (list_rollouts_for_product id 20) 500 "failed to load rollouts"
        (λ rs. pure (success 200 rs)))

abbrev pub on_product : ℕ → (Product → Product) → Tables → Tables
on_product id f t = record t { products = update_where (λ p. p.id == id) f t.products }

pub record RolloutBody : Type 0 where
  pub batch_percentage : ℤ
  pub batch_interval_value : ℤ
  pub batch_interval_unit : String

-- 1 to 100, or none
abbrev pub percentage : ℤ → Option ℕ
percentage (negsuc n) = none
percentage (pos n) = if ltb n 1 || ltb 100 n then none else some n

-- a number that an INTEGER column takes; the rows keep 0 for a negative one, since
-- `EffectiveRolloutIntervalMinutes` treats both alike
abbrev pub column_value : ℤ → Option ℕ
column_value (pos n) = if ltb n (2 ^ 31) then some n else none
column_value (negsuc n) = if ltb n (2 ^ 31) then some 0 else none

abbrev pub with_schedule : ℕ → ℕ → Product → Product
with_schedule percent minutes p = record p {
  rollout_percentage = percent;
  rollout_interval_minutes = minutes;
}

-- `db.DB.Model(&product).Updates` of both columns, with the product as it is then
unfoldable pub save_schedule : ℕ → Option ℕ → Product → Exec World Product
unfolding execute update_where call
save_schedule percent none p = call >> fail (errorf "integer out of range")
save_schedule percent (some minutes) p =
    execute (on_product p.id (with_schedule percent minutes))
    >> pure (with_schedule percent minutes p)

pub record StartedRollout : Type 0 where
  pub rollout_id : ℕ
  pub product_id : ℕ
  pub firmware_version : String
  pub firmware_url : String
  pub firmware_md5_url : String
  pub batch_percentage : ℕ
  pub batch_interval_minutes : ℕ
  pub eligible_devices : ℕ
  pub total_batches : ℕ
  pub status : String
  pub next_batch_at : Option ℕ

abbrev pub started : Product → Created → StartedRollout
started p c = record {
  rollout_id = c.rollout.id;
  product_id = p.id;
  firmware_version = p.firmware_version;
  firmware_url = firmware_url p;
  firmware_md5_url = firmware_md5_url p;
  batch_percentage = c.rollout.batch_percentage;
  batch_interval_minutes = c.rollout.batch_interval_minutes;
  eligible_devices = c.total_devices;
  total_batches = c.batches;
  status = c.rollout.status;
  next_batch_at = c.rollout.next_batch_at;
}

abbrev pub not_created : Error → Handler StartedRollout
not_created e =
    if contains e.message "no eligible devices"
    then refuse 400 e.message
    else refuse 500 "failed to create rollout"

module _ (sha256 : String → ℕ) (now later : ℕ) where
  -- the handler once the product is loaded
  unfoldable pub start_rollout : ℕ → RolloutBody → Product → Handler StartedRollout
  unfolding normalize_batch_interval_minutes save_schedule create_rollout contains
  start_rollout created_by body p =
      if str_eq (firmware_url p) ""
        || str_eq p.firmware_version ""
        || str_eq (firmware_md5_url p) ""
      then refuse 400 "upload firmware before triggering rollout"
      else present (percentage body.batch_percentage) 400
          "batch_percentage must be between 1 and 100"
          (λ percent.
            checked
              (normalize_batch_interval_minutes body.batch_interval_value body.batch_interval_unit)
              400
              (λ minutes.
                or_refuse (save_schedule percent (column_value minutes) p) 500
                  "failed to persist rollout settings"
                  (λ saved.
                    or_else (create_rollout sha256 now later saved created_by) not_created
                      (λ r. pure (success 200 (started saved r))))))

  -- `rolloutFirmware`, with the error of a body that does not bind
  unfoldable pub rollout_firmware :
      Option SessionUser → String → Outcome RolloutBody → Handler StartedRollout
  unfolding query_first query first_where parse_uint start_rollout
  rollout_firmware session product_param body =
      present (parse_uint product_param) 400 "invalid product id" (λ id.
        present session 401 "unauthorized" (λ s. checked body 400 (λ b.
          or_refuse (query_first (λ t. first_where (λ p. p.id == id) t.products)) 404
            "product not found" (start_rollout s.user_id b))))
