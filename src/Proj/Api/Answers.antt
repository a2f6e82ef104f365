-- ===== src/Proj/Api/Answers.antt =====
-- What a client can conclude from a response.
use gopher.Proj.Dao
use gopher.Proj.Dao.{delete_user_by_id}
