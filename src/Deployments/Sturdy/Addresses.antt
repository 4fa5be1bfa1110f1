-- ===== src/Deployments/Sturdy/Addresses.antt =====
-- The addresses that the deployments of Deployments.Sturdy leave.
use code4rena_may.Base.{Bool, List, [], ◌∷◌}
use code4rena_may.Deployments.{Deployer, Market, with_save_and_verify}
use code4rena_may.Deployments.Registered.{
  Registers, IsDatabase, after-Registers, last-Registers, AllRegister, Entry,
}
use code4rena_may.Deployments.Sturdy.{
  deploy_lido_vault, get_lido_vault, deploy_yearn_reth_wsteth_vault_vault,
  get_yearn_reth_wsteth_vault, deploy_convex_rocket_pool_eth_vault,
  get_convex_rocket_pool_eth_vault, deploy_convex_frax3crv_vault, get_convex_frax3crv_vault,
  deploy_convex_steth_vault, get_convex_steth_vault, deploy_convex_dola3crv_vault,
  get_convex_dola3crv_vault, deploy_yield_manager, get_yield_manager, deploy_collateral_adapter,
  get_collateral_adapter,
}

module _ (D : Deployer) (I : IsDatabase D) (verify : Bool) where
  deploy_lido_vault-Registers : Registers D "LIDO_VAULT" "LidoVault" (deploy_lido_vault D verify)
  unfolding deploy_lido_vault get_lido_vault
  deploy_lido_vault-Registers =
      after-Registers D (D.deploy_yield_manager_libraries verify) (λ libraries.
        after-Registers D (D.construct "LidoVault" libraries) (λ instance1.
          after-Registers D (with_save_and_verify D instance1 "LidoVaultImpl" [] verify) (λ impl.
            after-Registers D (D.addresses_provider) (λ u.
              after-Registers D (D.set_address_as_proxy "LIDO_VAULT" impl) (λ u.
                after-Registers D (D.set_address "LIDO" (D.param Market.sturdy "Lido")) (λ u.
                  after-Registers D
                    (D.set_address "STETH_ETH_POOL" (D.param Market.sturdy "CurveswapLidoPool"))
                    (λ u.
                      after-Registers D
                        (D.set_address "uniswapRouter" (D.param Market.sturdy "UniswapRouter"))
                        (λ u.
                          after-Registers D (D.set_address "WETH" (D.param Market.sturdy "WETH"))
                            (λ u. last-Registers D I "LIDO_VAULT" "LidoVault")))))))))

  deploy_yearn_reth_wsteth_vault_vault-Registers :
      Registers D "YEARN_RETH_WSTETH_VAULT" "YearnRETHWstETHVault"
        (deploy_yearn_reth_wsteth_vault_vault D verify)
  unfolding deploy_yearn_reth_wsteth_vault_vault get_yearn_reth_wsteth_vault
  deploy_yearn_reth_wsteth_vault_vault-Registers =
      after-Registers D (D.deploy_yearn_reth_wsteth_vault_libraries verify) (λ libraries.
        after-Registers D (D.construct "YearnRETHWstETHVault" libraries) (λ instance1.
          after-Registers D (with_save_and_verify D instance1 "YearnRETHWstETHVaultImpl" [] verify)
            (λ impl. after-Registers D (D.addresses_provider) (λ u.
              after-Registers D (D.set_address_as_proxy "YEARN_RETH_WSTETH_VAULT" impl) (λ u.
                after-Registers D
                  (D.set_address "YVRETH_WSTETH" (D.param Market.sturdy "YearnRETHWstETHVault"))
                  (λ u.
                    after-Registers D
                      (D.set_address "RETH_WSTETH" (D.param Market.sturdy "RETH_WSTETH_LP"))
                      (λ u.
                        after-Registers D (D.set_address "WSTETH" (D.param Market.sturdy "WSTETH"))
                          (λ u.
                            last-Registers D I "YEARN_RETH_WSTETH_VAULT"
                              "YearnRETHWstETHVault"))))))))

  deploy_convex_rocket_pool_eth_vault-Registers :
      Registers D "CONVEX_ROCKET_POOL_ETH_VAULT" "ConvexRocketPoolETHVault"
        (deploy_convex_rocket_pool_eth_vault D verify)
  unfolding deploy_convex_rocket_pool_eth_vault get_convex_rocket_pool_eth_vault
  deploy_convex_rocket_pool_eth_vault-Registers =
      after-Registers D (D.construct "ConvexCurveLPVault" []) (λ instance1.
        after-Registers D
          (with_save_and_verify D instance1 "ConvexRocketPoolETHVaulttImpl" [] verify)
          (λ impl. after-Registers D (D.addresses_provider) (λ u.
            after-Registers D (D.set_address_as_proxy "CONVEX_ROCKET_POOL_ETH_VAULT" impl) (λ u.
              after-Registers D
                (D.set_address "RETH_WSTETH" (D.param Market.sturdy "RETH_WSTETH_LP"))
                (λ u.
                  after-Registers D (D.set_address "WSTETH" (D.param Market.sturdy "WSTETH")) (λ u.
                    after-Registers D (D.set_address "CRV" (D.param Market.sturdy "CRV")) (λ u.
                      after-Registers D (D.set_address "CVX" (D.param Market.sturdy "CVX")) (λ u.
                        last-Registers D I "CONVEX_ROCKET_POOL_ETH_VAULT"
                          "ConvexRocketPoolETHVault"))))))))

  deploy_convex_frax3crv_vault-Registers :
      Registers D "CONVEX_FRAX_3CRV_VAULT" "ConvexFRAX3CRVVault"
        (deploy_convex_frax3crv_vault D verify)
  unfolding deploy_convex_frax3crv_vault get_convex_frax3crv_vault
  deploy_convex_frax3crv_vault-Registers =
      after-Registers D (D.construct "ConvexCurveLPVault" []) (λ instance1.
        after-Registers D (with_save_and_verify D instance1 "ConvexFRAX3CRVVaultImpl" [] verify)
          (λ impl. after-Registers D (D.addresses_provider) (λ u.
            after-Registers D (D.set_address_as_proxy "CONVEX_FRAX_3CRV_VAULT" impl) (λ u.
              after-Registers D (D.set_address "CRV" (D.param Market.sturdy "CRV")) (λ u.
                after-Registers D (D.set_address "CVX" (D.param Market.sturdy "CVX"))
                  (λ u. last-Registers D I "CONVEX_FRAX_3CRV_VAULT" "ConvexFRAX3CRVVault"))))))

  deploy_convex_steth_vault-Registers :
      Registers D "CONVEX_STETH_VAULT" "ConvexSTETHVault" (deploy_convex_steth_vault D verify)
  unfolding deploy_convex_steth_vault get_convex_steth_vault
  deploy_convex_steth_vault-Registers =
      after-Registers D (D.construct "ConvexCurveLPVault" []) (λ instance1.
        after-Registers D (with_save_and_verify D instance1 "ConvexSTETHVaultImpl" [] verify)
          (λ impl. after-Registers D (D.addresses_provider) (λ u.
            after-Registers D (D.set_address_as_proxy "CONVEX_STETH_VAULT" impl) (λ u.
              after-Registers D (D.set_address "CRV" (D.param Market.sturdy "CRV")) (λ u.
                after-Registers D (D.set_address "CVX" (D.param Market.sturdy "CVX"))
                  (λ u. last-Registers D I "CONVEX_STETH_VAULT" "ConvexSTETHVault"))))))

  deploy_convex_dola3crv_vault-Registers :
      Registers D "CONVEX_DOLA_3CRV_VAULT" "ConvexDOLA3CRVVault"
        (deploy_convex_dola3crv_vault D verify)
  unfolding deploy_convex_dola3crv_vault get_convex_dola3crv_vault
  deploy_convex_dola3crv_vault-Registers =
      after-Registers D (D.construct "ConvexCurveLPVault" []) (λ instance1.
        after-Registers D (with_save_and_verify D instance1 "ConvexDOLA3CRVVaultImpl" [] verify)
          (λ impl. after-Registers D (D.addresses_provider) (λ u.
            after-Registers D (D.set_address_as_proxy "CONVEX_DOLA_3CRV_VAULT" impl) (λ u.
              after-Registers D (D.set_address "CRV" (D.param Market.sturdy "CRV")) (λ u.
                after-Registers D (D.set_address "CVX" (D.param Market.sturdy "CVX"))
                  (λ u. last-Registers D I "CONVEX_DOLA_3CRV_VAULT" "ConvexDOLA3CRVVault"))))))

  deploy_yield_manager-Registers :
      Registers D "YIELD_MANAGER" "YieldManager" (deploy_yield_manager D verify)
  unfolding deploy_yield_manager get_yield_manager
  deploy_yield_manager-Registers =
      after-Registers D (D.deploy_yield_manager_libraries verify) (λ libraries.
        after-Registers D (D.construct "YieldManager" libraries) (λ instance1.
          after-Registers D (with_save_and_verify D instance1 "YieldManagerImpl" [] verify) (λ impl.
            after-Registers D (D.addresses_provider) (λ u.
              after-Registers D (D.set_address_as_proxy "YIELD_MANAGER" impl)
                (λ u. last-Registers D I "YIELD_MANAGER" "YieldManager")))))

  deploy_collateral_adapter-Registers :
      Registers D "COLLATERAL_ADAPTER" "CollateralAdapter" (deploy_collateral_adapter D verify)
  unfolding deploy_collateral_adapter get_collateral_adapter
  deploy_collateral_adapter-Registers =
      after-Registers D (D.construct "CollateralAdapter" []) (λ instance1.
        after-Registers D (with_save_and_verify D instance1 "CollateralAdapterImpl" [] verify)
          (λ impl. after-Registers D (D.addresses_provider) (λ u.
            after-Registers D (D.set_address_as_proxy "COLLATERAL_ADAPTER" impl)
              (λ u. last-Registers D I "COLLATERAL_ADAPTER" "CollateralAdapter"))))

abbrev pub entries : (D : Deployer) → Bool → List (Entry D)
entries D verify =
    ("LIDO_VAULT", "LidoVault", deploy_lido_vault D verify)
    ∷ (
      "YEARN_RETH_WSTETH_VAULT",
      "YearnRETHWstETHVault",
      deploy_yearn_reth_wsteth_vault_vault D verify,
    )
    ∷ (
      "CONVEX_ROCKET_POOL_ETH_VAULT",
      "ConvexRocketPoolETHVault",
      deploy_convex_rocket_pool_eth_vault D verify,
    )
    ∷ ("CONVEX_FRAX_3CRV_VAULT", "ConvexFRAX3CRVVault", deploy_convex_frax3crv_vault D verify)
    ∷ ("CONVEX_STETH_VAULT", "ConvexSTETHVault", deploy_convex_steth_vault D verify)
    ∷ ("CONVEX_DOLA_3CRV_VAULT", "ConvexDOLA3CRVVault", deploy_convex_dola3crv_vault D verify)
    ∷ ("YIELD_MANAGER", "YieldManager", deploy_yield_manager D verify)
    ∷ ("COLLATERAL_ADAPTER", "CollateralAdapter", deploy_collateral_adapter D verify)
    ∷ []

pub entries-AllRegister :
    (D : Deployer) → IsDatabase D → (verify : Bool) → AllRegister D (entries D verify)
entries-AllRegister D I verify = (
  deploy_lido_vault-Registers D I verify,
  (
    deploy_yearn_reth_wsteth_vault_vault-Registers D I verify,
    (
      deploy_convex_rocket_pool_eth_vault-Registers D I verify,
      (
        deploy_convex_frax3crv_vault-Registers D I verify,
        (
          deploy_convex_steth_vault-Registers D I verify,
          (
            deploy_convex_dola3crv_vault-Registers D I verify,
            (
              deploy_yield_manager-Registers D I verify,
              (deploy_collateral_adapter-Registers D I verify, tt),
            ),
          ),
        ),
      ),
    ),
  ),
)
