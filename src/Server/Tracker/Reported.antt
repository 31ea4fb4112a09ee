-- ===== src/Server/Tracker/Reported.antt =====
-- What protGet of internal/server/write_tracker.go reads of a row of the database.
use apsystems_sunspec.Base.{
  ◌≡◌, refl, Option, none, some, List, [], ◌∷◌, Str, codes, lookup, All, if◌then◌else◌,
}
use apsystems_sunspec.Floats.{Floats}
use apsystems_sunspec.Source.Protection.Rows.{ProtectionRow, written_or, is_written, params_of_row}
use apsystems_sunspec.Server.Tracker.{prot_get, prot_fields}

module _ (fl : Floats) where
  open fl use {F, lit}

  -- The columns whose codes protGet knows.
  abbrev pub readable : ProtectionRow F → List (Str × Option F)
  readable r =
      (codes "AB", r.ab)
      ∷ (codes "AC", r.ac)
      ∷ (codes "AD", r.ad)
      ∷ (codes "AE", r.ae)
      ∷ (codes "AF", r.af)
      ∷ (codes "AG", r.ag)
      ∷ (codes "AH", r.ah)
      ∷ (codes "AI", r.ai)
      ∷ (codes "AJ", r.aj)
      ∷ (codes "AK", r.ak)
      ∷ (codes "AQ", r.aq)
      ∷ (codes "AS", r.as_start)
      ∷ (codes "AY", r.ay)
      ∷ (codes "BB", r.bb)
      ∷ (codes "BC", r.bc)
      ∷ (codes "BD", r.bd)
      ∷ (codes "BE", r.be)
      ∷ (codes "BH", r.bh)
      ∷ (codes "BI", r.bi)
      ∷ (codes "BJ", r.bj)
      ∷ (codes "BK", r.bk)
      ∷ (codes "BN", r.bn)
      ∷ (codes "BO", r.bo)
      ∷ (codes "BP", r.bp)
      ∷ (codes "BQ", r.bq)
      ∷ (codes "CC", r.cc_)
      ∷ (codes "CV", r.cv)
      ∷ (codes "DC", r.dc)
      ∷ (codes "DD", r.dd)
      ∷ []

  -- A column that is read is reported as it is, null or not.
  kept : (o : Option F) → (if is_written (some o) then some (written_or (lit 0 0) o) else none) ≡ o
  kept none = refl
  kept (some v) = refl

  -- Of a row of the database, protGet gives for each of the twenty-nine codes that it knows exactly
  -- the row's column of that code: its number, or nothing where the column is null.
  pub prot_get-params_of_row :
      (r : ProtectionRow F) → All (λ c. prot_get fl (params_of_row fl r) c.0 ≡ c.1) (readable r)
  unfolding prot_get prot_fields params_of_row lookup
  prot_get-params_of_row r = (
    kept r.ab,
    (
      kept r.ac,
      (
        kept r.ad,
        (
          kept r.ae,
          (
            kept r.af,
            (
              kept r.ag,
              (
                kept r.ah,
                (
                  kept r.ai,
                  (
                    kept r.aj,
                    (
                      kept r.ak,
                      (
                        kept r.aq,
                        (
                          kept r.as_start,
                          (
                            kept r.ay,
                            (
                              kept r.bb,
                              (
                                kept r.bc,
                                (
                                  kept r.bd,
                                  (
                                    kept r.be,
                                    (
                                      kept r.bh,
                                      (
                                        kept r.bi,
                                        (
                                          kept r.bj,
                                          (
                                            kept r.bk,
                                            (
                                              kept r.bn,
                                              (
                                                kept r.bo,
                                                (
                                                  kept r.bp,
                                                  (
                                                    kept r.bq,
                                                    (
                                                      kept r.cc_,
                                                      (kept r.cv, (kept r.dc, (kept r.dd, tt))),
                                                    ),
                                                  ),
                                                ),
                                              ),
                                            ),
                                          ),
                                        ),
                                      ),
                                    ),
                                  ),
                                ),
                              ),
                            ),
                          ),
                        ),
                      ),
                    ),
                  ),
                ),
              ),
            ),
          ),
        ),
      ),
    ),
  )
