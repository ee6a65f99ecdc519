-- ===== src/WorkOrder/Service/Reviewed.antt =====
-- What CreateReview leaves in the tables (internal/domain/work_order/service.go).
use loresuelvo_api.Common.{◌≡◌, String, ok, ℤ}
use loresuelvo_api.User.{User}
use loresuelvo_api.WorkOrder.Review.{Review, new_review}
use loresuelvo_api.WorkOrder.Order.{WorkOrder}
use loresuelvo_api.Work.{lift, read, write}
use loresuelvo_api.Work.Hoare.{Hoare, bind-Hoare, lift-Hoare, lift-knows, unit_of_work_as-Hoare}
use loresuelvo_api.Work.Statements.{read-knows, write-knows, knowing}
use loresuelvo_api.Payment.World.{Tables}
use loresuelvo_api.Payment.World.Orders.{
  find_user_by_auth_id, find_order_by_id, select_order, select_user, put_order,
}
use loresuelvo_api.WorkOrder.Service.Allowed.{IsReviewed, reviewed-IsReviewed}
use loresuelvo_api.WorkOrder.Service.{reviewed, create_review, executed, review_to_read_model}

-- The tables after a review: that of an order as it was read, written with it.
pub record Reviewed (auth_id : String) (id rating : ℤ) (description : String) (t t' : Tables)
    : Type 0 where
  pub user : User
  pub order : WorkOrder
  pub review : Review
  pub left : WorkOrder
  pub known : select_user auth_id t ≡ ok user
  pub read : select_order id t ≡ ok order
  pub made : new_review rating description ≡ ok review
  pub allowed : IsReviewed user order review left
  pub written : put_order left t ≡ ok t'

-- CreateReview fails and leaves the tables as they were, or the caller is the consumer of the order,
-- the order was paid and had no review, and it is saved with the new review alone changed.
pub create_review-Reviewed :
    (auth_id : String) (id rating : ℤ) (description : String) (t : Tables)
    → Hoare
        (λ u. u ≡ t)
        (create_review auth_id id rating description)
        (λ _. Reviewed auth_id id rating description t)
        (λ u. u ≡ t)
unfolding create_review find_user_by_auth_id find_order_by_id
create_review-Reviewed auth_id id rating description t =
    bind-Hoare (read (select_user auth_id)) _ (read-knows (select_user auth_id) t) (λ user.
      knowing (λ known.
        bind-Hoare (read (select_order id)) _ (read-knows (select_order id) t) (λ order.
          knowing (λ found.
            bind-Hoare (lift (reviewed user order rating description)) _ (lift-knows _) (λ made.
              knowing (λ e.
                bind-Hoare (executed (write (put_order made.1))) _
                  (unit_of_work_as-Hoare _ _ (write (put_order made.1))
                    (write-knows (put_order made.1) t))
                  (λ _. lift-Hoare (ok (review_to_read_model made.0)) (λ u p.
                    let (m, i) = reviewed-IsReviewed user order rating description made e in
                    record {
                      user = user;
                      order = order;
                      review = made.0;
                      left = made.1;
                      known = known;
                      read = found;
                      made = m;
                      allowed = i;
                      written = p;
                    }))))))))
